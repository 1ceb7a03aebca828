-- ===== src/LogQuery/Bound.antt =====
-- The parameters of the statements.
use tube.Common.{
  ℕ, suc, ◌+◌, ◌≡◌, refl, ap, ◌∙◌, Bool, true, false, ◌&&◌, Option, none, some, List, [], ◌∷◌, ◌++◌,
  eqb, eqb_iff, if◌then◌else◌, length, length-append, arith, get_or, All,
}
use tube.Common.Text.{Text, codes, trim, join}
use tube.LogQuery.{
  InvocationCursor, InvocationFilter, LogSearchFilter, SqlValue, Condition, where_text,
  where_number, where_status, where_errors, where_match, where_cursor, upper_some, together,
  params_of, sqls_of, where_line, match_of, invocation_clauses, log_clauses, select_invocations,
  newest_invocations, newest_logs, invocation_conditions, query_invocations, log_conditions,
  log_statement, search_logs,
}

-- The placeholders of a statement.
abbrev pub placeholders : Text → ℕ
placeholders [] = 0
placeholders (c ∷ s) = let n = placeholders s in if eqb c b'?' then suc n else n

placeholders-append : (s t : Text) → placeholders (s ++ t) ≡ placeholders s + placeholders t
placeholders-append [] t = ground arith
placeholders-append (c ∷ s) t = ground (arith, placeholders-append s t)

-- Each condition has a value for each placeholder.
abbrev are_bound : List Condition → Bool
are_bound [] = true
are_bound (c ∷ cs) = eqb (placeholders c.sql) (length c.params) && are_bound cs

are_bound-append : (xs ys : List Condition) → are_bound (xs ++ ys) ≡ (are_bound xs && are_bound ys)
are_bound-append [] ys = refl
are_bound-append (x ∷ xs) ys = ground (arith, are_bound-append xs ys)

abbrev AreBound : List (List Condition) → Type 0
AreBound css = All (λ cs. are_bound cs ≡ true) css

together_bound : (css : List (List Condition)) → AreBound css → are_bound (together css) ≡ true
unfolding together
together_bound [] h = refl
together_bound (cs ∷ rest) h =
    are_bound-append cs (together rest)
    ∙ ap (λ b. b && are_bound (together rest)) h.0
    ∙ together_bound rest h.1

where_text_bound :
    (sql : Text) (o : Option Text) → placeholders sql ≡ 1 → are_bound (where_text sql o) ≡ true
where_text_bound sql none e = refl
where_text_bound sql (some []) e = refl
where_text_bound sql (some (c ∷ s)) e = ground (arith, e, eqb_iff (placeholders sql) 1)

where_number_bound :
    (sql : Text) (o : Option ℕ) → placeholders sql ≡ 1 → are_bound (where_number sql o) ≡ true
where_number_bound sql none e = refl
where_number_bound sql (some n) e = ground (arith, e, eqb_iff (placeholders sql) 1)

where_status_bound : (s c : Option ℕ) → are_bound (where_status s c) ≡ true
where_status_bound (some n) c = refl
where_status_bound none none = refl
where_status_bound none (some n) = refl

where_errors_bound : (b : Bool) → are_bound (where_errors b) ≡ true
where_errors_bound true = refl
where_errors_bound false = refl

where_match_bound : (q : Text) (o : Option Text) → are_bound (where_match q o) ≡ true
where_match_bound q none = refl
where_match_bound q (some m) = refl

where_cursor_bound : (o : Option InvocationCursor) → are_bound (where_cursor o) ≡ true
where_cursor_bound none = refl
where_cursor_bound (some c) = refl

placeholders-join :
    (c : Condition) (cs : List Condition)
    → are_bound (c ∷ cs) ≡ true
    → placeholders (join (codes " AND ") (sqls_of (c ∷ cs))) ≡ length (params_of (c ∷ cs))
unfolding join sqls_of params_of
placeholders-join c [] h =
    ground (arith, h, eqb_iff (placeholders c.sql) (length c.params), length-append c.params [])
placeholders-join c (d ∷ cs) h = ground (
  arith,
  h,
  eqb_iff (placeholders c.sql) (length c.params),
  placeholders-join d cs,
  placeholders-append (c.sql ++ codes " AND ") (join (codes " AND ") (d.sql ∷ sqls_of cs)),
  placeholders-append c.sql (codes " AND "),
  length-append c.params (params_of (d ∷ cs)),
)

placeholders-where_line :
    (cs : List Condition)
    → are_bound cs ≡ true
    → placeholders (where_line cs) ≡ length (params_of cs)
unfolding where_line params_of
placeholders-where_line [] h = refl
placeholders-where_line (c ∷ cs) h = placeholders-join c cs h

-- A statement around a line of conditions, with one more placeholder and value.
statement_bound :
    (before after : Text) (cs : List Condition) (v : SqlValue)
    → placeholders before ≡ 0
    → placeholders after ≡ 1
    → are_bound cs ≡ true
    → placeholders (before ++ where_line cs ++ after) ≡ length (params_of cs ++ v ∷ [])
statement_bound before after cs v b a h = ground (
  arith,
  placeholders-append before (where_line cs ++ after),
  placeholders-append (where_line cs) after,
  placeholders-append (before ++ where_line cs) after,
  placeholders-append before (where_line cs),
  placeholders-where_line cs h,
  length-append (params_of cs) (v ∷ []),
  b,
  a,
)

invocation_conditions_bound :
    (has_word : Text → Bool) (f : InvocationFilter)
    → are_bound (invocation_conditions has_word f) ≡ true
unfolding invocation_conditions
invocation_conditions_bound has_word f = together_bound (invocation_clauses has_word f) (
  where_text_bound (codes "i.function_name = ?") f.function_name refl,
  (
    where_text_bound (codes "i.method = ?") (upper_some f.method) refl,
    (
      where_status_bound f.status f.status_class,
      (
        where_text_bound (codes "i.error_kind = ?") f.error_kind refl,
        (
          where_errors_bound f.errors_only,
          (
            where_number_bound (codes "i.ts_ms >= ?") f.from_ms refl,
            (
              where_number_bound (codes "i.ts_ms <= ?") f.to_ms refl,
              (
                where_match_bound (trim (get_or f.q [])) (match_of has_word f.q),
                (where_cursor_bound f.cursor, tt),
              ),
            ),
          ),
        ),
      ),
    ),
  ),
)

log_conditions_bound :
    (has_word : Text → Bool) (f : LogSearchFilter) → are_bound (log_conditions has_word f) ≡ true
unfolding log_conditions
log_conditions_bound has_word f = together_bound (log_clauses has_word f) (
  where_text_bound (codes "l.invocation_id = ?") f.invocation_id refl,
  (
    where_text_bound (codes "l.function_name = ?") f.function_name refl,
    (
      where_text_bound (codes "l.level = ?") f.level refl,
      (
        where_text_bound (codes "l.source = ?") f.source refl,
        (
          where_number_bound (codes "l.ts_ms >= ?") f.from_ms refl,
          (
            where_number_bound (codes "l.ts_ms <= ?") f.to_ms refl,
            (where_number_bound (codes "l.id < ?") f.before_id refl, tt),
          ),
        ),
      ),
    ),
  ),
)

log_statement_bound :
    (has_word : Text → Bool) (o : Option Text) (cs : List Condition)
    → are_bound cs ≡ true
    → (are_bound (log_statement has_word o cs).0 ≡ true)
      × (placeholders (log_statement has_word o cs).1 ≡ 0)
log_statement_bound has_word none cs h = (h, refl)
log_statement_bound has_word (some m) cs h = (h, refl)

-- For every filter, the statements of queryInvocations and searchLogs have as many placeholders as
-- values.
pub placeholders-params :
    (has_word : Text → Bool) (f : InvocationFilter) (g : LogSearchFilter)
    → (placeholders (query_invocations has_word f).sql
        ≡ length (query_invocations has_word f).params)
      × (placeholders (search_logs has_word g).sql ≡ length (search_logs has_word g).params)
unfolding query_invocations search_logs
placeholders-params has_word f g =
    let bound =
      log_statement_bound has_word (match_of has_word g.q) (log_conditions has_word g)
        (log_conditions_bound has_word g) in
    (
      statement_bound select_invocations newest_invocations (invocation_conditions has_word f) _
          refl refl (invocation_conditions_bound has_word f),
      statement_bound (log_statement has_word (match_of has_word g.q) (log_conditions has_word g)).1
          newest_logs (log_statement has_word (match_of has_word g.q) (log_conditions has_word g)).0
          _ bound.1 refl bound.0,
    )
