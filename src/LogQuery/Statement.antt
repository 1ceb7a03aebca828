-- ===== src/LogQuery/Statement.antt =====
-- The statement of `searchLogs`, taken apart at its cursor, order and limit.
use mathlib.Core.List.{append-nil, append_assoc}
use tube.Common.{ℕ, ◌+◌, ◌≡◌, refl, ap, sym, ◌∙◌, Bool, Option, none, some, List, [], ◌∷◌, ◌++◌}
use tube.Common.Text.{Text, codes, join}
use tube.LogQuery.{
  LogSearchFilter, Condition, SqlValue, number, match_of, log_conditions, log_statement,
  narrow_clauses, together, params_of, sqls_of, where_line, Query, clamp_limit, search_logs,
}

-- The conditions of `searchLogs` besides the cursor, and the statement that they narrow.
others : (Text → Bool) → LogSearchFilter → List Condition × Text
unfolding match_of log_conditions
others has_word f =
    log_statement has_word (match_of has_word f.q)
      (log_conditions has_word (record f { before_id = none }))

-- The statement up to its order, without a cursor.
pub stem : (Text → Bool) → LogSearchFilter → Text
unfolding others where_line
stem has_word f = (others has_word f).1 ++ where_line (others has_word f).0

glue_of : List Condition → Text
glue_of [] = codes "WHERE "
glue_of (c ∷ cs) = codes " AND "

-- What stands before one more condition.
pub glue : (Text → Bool) → LogSearchFilter → Text
unfolding others glue_of
glue has_word f = glue_of (others has_word f).0

unfoldable pub values : (Text → Bool) → LogSearchFilter → List SqlValue
unfolding others params_of
values has_word f = params_of (others has_word f).0

abbrev below : ℕ → Condition
below b = record { sql = codes "l.id < ?"; params = number b ∷ [] }

together-snoc :
    (css : List (List Condition)) (cs : List Condition)
    → together (css ++ cs ∷ []) ≡ together css ++ cs
unfolding together
together-snoc [] cs = append-nil cs
together-snoc (d ∷ css) cs =
    ap (λ t. d ++ t) (together-snoc css cs) ∙ sym (append_assoc d (together css) cs)

params_of-snoc :
    (cs : List Condition) (c : Condition) → params_of (cs ++ c ∷ []) ≡ params_of cs ++ c.params
unfolding params_of
params_of-snoc [] c = append-nil c.params
params_of-snoc (d ∷ cs) c =
    ap (λ t. d.params ++ t) (params_of-snoc cs c)
    ∙ sym (append_assoc d.params (params_of cs) c.params)

join-snoc :
    (d : Condition) (cs : List Condition) (c : Condition)
    → join (codes " AND ") (sqls_of (d ∷ cs ++ c ∷ []))
      ≡ join (codes " AND ") (sqls_of (d ∷ cs)) ++ (codes " AND " ++ c.sql)
unfolding join sqls_of
join-snoc d [] c = append_assoc d.sql (codes " AND ") c.sql
join-snoc d (e ∷ cs) c =
    ap (λ t. d.sql ++ codes " AND " ++ t) (join-snoc e cs c)
    ∙ sym (
        append_assoc (d.sql ++ codes " AND ") (join (codes " AND ") (sqls_of (e ∷ cs)))
          (codes " AND " ++ c.sql))

where_line-snoc :
    (cs : List Condition) (c : Condition)
    → where_line (cs ++ c ∷ []) ≡ where_line cs ++ (glue_of cs ++ c.sql)
unfolding where_line glue_of join sqls_of
where_line-snoc [] c = refl
where_line-snoc (d ∷ cs) c =
    ap (λ t. codes "WHERE " ++ t) (join-snoc d cs c)
    ∙ sym (
        append_assoc (codes "WHERE ") (join (codes " AND ") (sqls_of (d ∷ cs)))
          (codes " AND " ++ c.sql))

statement_below :
    (has_word : Text → Bool) (m : Option Text) (cs : List Condition) (c : Condition)
    → log_statement has_word m (cs ++ c ∷ [])
      ≡ ((log_statement has_word m cs).0 ++ c ∷ [], (log_statement has_word m cs).1)
statement_below has_word none cs c = refl
statement_below has_word (some t) cs c = refl

log_conditions-below :
    (has_word : Text → Bool) (f : LogSearchFilter) (b : ℕ)
    → log_conditions has_word (record f { before_id = some b })
      ≡ log_conditions has_word (record f { before_id = none }) ++ below b ∷ []
unfolding log_conditions
log_conditions-below has_word f b =
    let clauses = narrow_clauses has_word f in
    together-snoc clauses (below b ∷ [])
    ∙ ap (λ cs. cs ++ below b ∷ []) (sym (together-snoc clauses [] ∙ append-nil (together clauses)))

query_of : Option ℕ → List Condition × Text → Query
unfolding where_line params_of clamp_limit
query_of limit (cs, select) = record {
  sql = select ++ where_line cs ++ codes " ORDER BY l.id DESC LIMIT ?";
  params = params_of cs ++ number (clamp_limit limit + 1) ∷ [];
}

query_of-below :
    (limit : Option ℕ) (cs : List Condition) (select : Text) (b : ℕ)
    → query_of limit (cs ++ below b ∷ [], select) ≡ record {
      sql =
          select
          ++ where_line cs
          ++ glue_of cs
          ++ codes "l.id < ?"
          ++ codes " ORDER BY l.id DESC LIMIT ?";
      params = params_of cs ++ number b ∷ number (clamp_limit limit + 1) ∷ [];
    }
unfolding query_of
query_of-below limit cs select b =
    let last : List SqlValue = number (clamp_limit limit + 1) ∷ [] in
    let order = codes " ORDER BY l.id DESC LIMIT ?" in
    let sql : select ++ where_line (cs ++ below b ∷ [])
        ≡ select ++ where_line cs ++ glue_of cs ++ codes "l.id < ?" =
      ap (λ t. select ++ t) (where_line-snoc cs (below b))
      ∙ sym (append_assoc select (where_line cs) (glue_of cs ++ codes "l.id < ?"))
      ∙ sym (append_assoc (select ++ where_line cs) (glue_of cs) (codes "l.id < ?")) in
    let params : params_of (cs ++ below b ∷ []) ++ last ≡ params_of cs ++ (number b ∷ last) =
      ap (λ p. p ++ last) (params_of-snoc cs (below b))
      ∙ append_assoc (params_of cs) (number b ∷ []) last in
    ap
      (λ t. record {
        sql = t ++ codes " ORDER BY l.id DESC LIMIT ?";
        params = params_of (cs ++ below b ∷ []) ++ last;
      })
      sql
    ∙ ap
        (λ p. record {
          sql =
              select
              ++ where_line cs
              ++ glue_of cs
              ++ codes "l.id < ?"
              ++ codes " ORDER BY l.id DESC LIMIT ?";
          params = p;
        })
        params

pub search_logs_first :
    (has_word : Text → Bool) (f : LogSearchFilter)
    → search_logs has_word (record f { before_id = none }) ≡ record {
      sql = stem has_word f ++ codes " ORDER BY l.id DESC LIMIT ?";
      params = values has_word f ++ number (clamp_limit f.limit + 1) ∷ [];
    }
unfolding search_logs stem values others
search_logs_first has_word f = refl

pub search_logs_below :
    (has_word : Text → Bool) (f : LogSearchFilter) (b : ℕ)
    → search_logs has_word (record f { before_id = some b }) ≡ record {
      sql =
          stem has_word f
          ++ glue has_word f
          ++ codes "l.id < ?"
          ++ codes " ORDER BY l.id DESC LIMIT ?";
      params = values has_word f ++ number b ∷ number (clamp_limit f.limit + 1) ∷ [];
    }
unfolding search_logs stem values others glue query_of
search_logs_below has_word f b =
    let m = match_of has_word f.q in
    ap (λ cs. query_of f.limit (log_statement has_word m cs)) (log_conditions-below has_word f b)
    ∙ ap (query_of f.limit) (
        statement_below has_word m (log_conditions has_word (record f { before_id = none }))
          (below b))
    ∙ query_of-below f.limit (others has_word f).0 (others has_word f).1 b
