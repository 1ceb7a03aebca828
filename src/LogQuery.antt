-- ===== src/LogQuery.antt =====
-- logs/query.ts: the queries of the logs. SQLite is a parameter, the function that answers a query.
pub mod Fts
pub mod Bound
pub mod Statement
pub mod Pages
mod Tests
use tube.Common.{
  ℕ, zero, suc, ◌+◌, ◌*◌, Bool, true, false, not, ◌&&◌, Option, none, some, List, [], ◌∷◌, ◌++◌,
  leb, ltb, if◌then◌else◌, length, take, map, get_or,
}
use tube.Common.Text.{Text, codes, trim, join}
use tube.Edge.Router.{to_upper}
use tube.LogQuery.Fts.{build_fts_match}

pub record LogRecord : Type 0 where
  pub id : ℕ
  pub invocation_id : Option Text
  pub ts_ms : ℕ
  pub level : Text
  pub function_name : Option Text
  pub source : Text
  pub message : Text

pub record InvocationCursor : Type 0 where
  pub ts_ms : ℕ
  pub id : Text

pub record InvocationFilter : Type 0 where
  pub function_name : Option Text
  pub method : Option Text
  pub status : Option ℕ
  pub status_class : Option ℕ
  pub error_kind : Option Text
  pub errors_only : Bool
  pub from_ms : Option ℕ
  pub to_ms : Option ℕ
  pub q : Option Text
  pub limit : Option ℕ
  pub cursor : Option InvocationCursor

pub record LogSearchFilter : Type 0 where
  pub q : Option Text
  pub invocation_id : Option Text
  pub function_name : Option Text
  pub level : Option Text
  pub source : Option Text
  pub from_ms : Option ℕ
  pub to_ms : Option ℕ
  pub limit : Option ℕ
  pub before_id : Option ℕ

pub data SqlValue : Type 0 where
  text : Text → SqlValue
  number : ℕ → SqlValue

-- A condition of `where` with the values that it pushes to `params`.
pub record Condition : Type 0 where
  pub sql : Text
  pub params : List SqlValue

-- A limit is a whole number, as the API parses it.
unfoldable pub clamp_limit : Option ℕ → ℕ
clamp_limit none = 50
clamp_limit (some zero) = 50
clamp_limit (some (suc n)) = if leb (suc n) 200 then suc n else 200

-- `if (value)` for a text: an empty one is none.
abbrev pub where_text : Text → Option Text → List Condition
where_text sql none = []
where_text sql (some []) = []
where_text sql (some (c ∷ s)) = record { sql = sql; params = text (c ∷ s) ∷ [] } ∷ []

abbrev pub where_number : Text → Option ℕ → List Condition
where_number sql none = []
where_number sql (some n) = record { sql = sql; params = number n ∷ [] } ∷ []

abbrev pub where_status : Option ℕ → Option ℕ → List Condition
where_status (some status) class = where_number (codes "i.status = ?") (some status)
where_status none none = []
where_status none (some class) =
    record {
      sql = codes "i.status >= ? AND i.status < ?";
      params = number (class * 100) ∷ number ((class + 1) * 100) ∷ [];
    }
    ∷ []

abbrev pub where_errors : Bool → List Condition
where_errors false = []
where_errors true = record { sql = codes "i.status >= 400"; params = [] } ∷ []

abbrev pub where_match : Text → Option Text → List Condition
where_match q none = []
where_match q (some match) =
    record {
      sql =
          codes
            "(i.id IN (SELECT l.invocation_id FROM logs_fts f JOIN logs l ON l.id = f.rowid WHERE logs_fts MATCH ? AND l.invocation_id IS NOT NULL) OR i.error_message LIKE '%' || ? || '%')";
      params = text match ∷ text q ∷ [];
    }
    ∷ []

abbrev pub where_cursor : Option InvocationCursor → List Condition
where_cursor none = []
where_cursor (some c) =
    record {
      sql = codes "(i.ts_ms < ? OR (i.ts_ms = ? AND i.id < ?))";
      params = number c.ts_ms ∷ number c.ts_ms ∷ text c.id ∷ [];
    }
    ∷ []

abbrev upper_some : Option Text → Option Text
upper_some none = none
upper_some (some m) = some (to_upper m)

-- The conditions, in the order in which they are pushed.
pub together : List (List Condition) → List Condition
together [] = []
together (cs ∷ rest) = cs ++ together rest

pub params_of : List Condition → List SqlValue
params_of [] = []
params_of (c ∷ cs) = c.params ++ params_of cs

pub sqls_of : List Condition → List Text
sqls_of [] = []
sqls_of (c ∷ cs) = c.sql ∷ sqls_of cs

-- `where.length > 0 ? "WHERE " + where.join(" AND ") : ""`
where_line : List Condition → Text
unfolding sqls_of join
where_line [] = []
where_line (c ∷ cs) = codes "WHERE " ++ join (codes " AND ") (sqls_of (c ∷ cs))

-- A statement and its parameters; the white space of the statement is one blank.
pub record Query : Type 0 where
  pub sql : Text
  pub params : List SqlValue

abbrev select_invocations : Text
select_invocations =
    codes
      "SELECT i.*, (SELECT COUNT(*) FROM logs l WHERE l.invocation_id = i.id) AS log_count FROM invocations i "

abbrev newest_invocations : Text
newest_invocations = codes " ORDER BY i.ts_ms DESC, i.id DESC LIMIT ?"

abbrev newest_logs : Text
newest_logs = codes " ORDER BY l.id DESC LIMIT ?"

module _ (has_word : Text → Bool) where
  pub match_of : Option Text → Option Text
  unfolding build_fts_match
  match_of none = none
  match_of (some []) = none
  match_of (some (c ∷ s)) = build_fts_match has_word (c ∷ s)

  abbrev pub invocation_clauses : InvocationFilter → List (List Condition)
  invocation_clauses f =
      where_text (codes "i.function_name = ?") f.function_name
      ∷ where_text (codes "i.method = ?") (upper_some f.method)
      ∷ where_status f.status f.status_class
      ∷ where_text (codes "i.error_kind = ?") f.error_kind
      ∷ where_errors f.errors_only
      ∷ where_number (codes "i.ts_ms >= ?") f.from_ms
      ∷ where_number (codes "i.ts_ms <= ?") f.to_ms
      ∷ where_match (trim (get_or f.q [])) (match_of f.q)
      ∷ where_cursor f.cursor
      ∷ []

  pub invocation_conditions : InvocationFilter → List Condition
  unfolding match_of trim to_upper together
  invocation_conditions f = together (invocation_clauses f)

  pub query_invocations : InvocationFilter → Query
  unfolding invocation_conditions where_line params_of clamp_limit
  query_invocations f = record {
    sql = select_invocations ++ where_line (invocation_conditions f) ++ newest_invocations;
    params = params_of (invocation_conditions f) ++ number (clamp_limit f.limit + 1) ∷ [];
  }

  abbrev pub narrow_clauses : LogSearchFilter → List (List Condition)
  narrow_clauses f =
      where_text (codes "l.invocation_id = ?") f.invocation_id
      ∷ where_text (codes "l.function_name = ?") f.function_name
      ∷ where_text (codes "l.level = ?") f.level
      ∷ where_text (codes "l.source = ?") f.source
      ∷ where_number (codes "l.ts_ms >= ?") f.from_ms
      ∷ where_number (codes "l.ts_ms <= ?") f.to_ms
      ∷ []

  abbrev log_clauses : LogSearchFilter → List (List Condition)
  log_clauses f = narrow_clauses f ++ where_number (codes "l.id < ?") f.before_id ∷ []

  log_conditions : LogSearchFilter → List Condition
  unfolding together
  log_conditions f = together (log_clauses f)

  abbrev log_statement : Option Text → List Condition → List Condition × Text
  log_statement none cs = (cs, codes "SELECT l.* FROM logs l ")
  log_statement (some match) cs = (
    record { sql = codes "logs_fts MATCH ?"; params = text match ∷ [] } ∷ cs,
    codes "SELECT l.* FROM logs_fts f JOIN logs l ON l.id = f.rowid ",
  )

  unfoldable pub search_logs : LogSearchFilter → Query
  unfolding log_conditions match_of where_line params_of clamp_limit
  search_logs f =
      let (cs, select) = log_statement (match_of f.q) (log_conditions f) in
      record {
        sql = select ++ where_line cs ++ newest_logs;
        params = params_of cs ++ number (clamp_limit f.limit + 1) ∷ [];
      }

pub record LogSearchPage : Type 0 where
  pub items : List LogRecord
  pub next_before_id : Option ℕ

abbrev pub last_id : List LogRecord → Option ℕ
last_id [] = none
last_id (r ∷ []) = some r.id
last_id (r ∷ s ∷ rs) = last_id (s ∷ rs)

-- The page of `searchLogs` from the rows that the database has returned.
unfoldable pub page_of : ℕ → List LogRecord → LogSearchPage
page_of limit rows = record {
  items = take limit rows;
  next_before_id = if ltb limit (length rows) then last_id (take limit rows) else none;
}

-- `searchLogs`, with the database as the function that answers a query.
unfoldable pub search_page :
    (Text → Bool) → (Query → List LogRecord) → LogSearchFilter → LogSearchPage
unfolding search_logs page_of clamp_limit
search_page has_word answer f = page_of (clamp_limit f.limit) (answer (search_logs has_word f))
