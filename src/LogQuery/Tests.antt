-- ===== src/LogQuery/Tests.antt =====
-- Three lines of a log.
use tube.Common.{ℕ, ◌≡◌, refl, Bool, true, false, none, some, List, [], ◌∷◌, take, arith}
use tube.Common.Text.{Text, codes}
use tube.LogQuery.{LogRecord, InvocationFilter, LogSearchFilter, SqlValue, number, Query}
use tube.LogQuery.Fts.{
  usable_terms, build_fts_match, read_some, terms_or_none, read_match-build_fts_match,
}
use tube.LogQuery.Statement.{values}
use tube.LogQuery.Pages.{older, all_pages, Answers, all_pages-rows}

abbrev line : ℕ → LogRecord
line n = record {
  id = n;
  invocation_id = none;
  ts_ms = n;
  level = codes "log";
  function_name = none;
  source = codes "console";
  message = codes "hi";
}

abbrev three : List LogRecord
three = line 9 ∷ line 5 ∷ line 2 ∷ []

abbrev by_twos : LogSearchFilter
by_twos = record {
  q = none;
  invocation_id = none;
  function_name = none;
  level = none;
  source = none;
  from_ms = none;
  to_ms = none;
  limit = some 2;
  before_id = none;
}

abbrev select_three : List SqlValue → List LogRecord
select_three (number n ∷ []) = take n three
select_three (number b ∷ number n ∷ []) = take n (older (some b) three)
select_three _ = []

abbrev toy_answer : Query → List LogRecord
toy_answer q = select_three q.params

abbrev is_word : Text → Bool
is_word [] = false
is_word (c ∷ s) = true

toy_answer-Answers : Answers is_word toy_answer by_twos three
unfolding values
toy_answer-Answers = (λ n. refl, λ b n. refl)

all_pages-rows_example : all_pages is_word toy_answer 4 none by_twos ≡ three
all_pages-rows_example =
    all_pages-rows is_word toy_answer by_twos three 4 refl toy_answer-Answers (ground arith)

read_match-build_fts_match_example :
    read_some (build_fts_match is_word (codes "time* say\"x\" OR"))
    ≡ terms_or_none (usable_terms is_word (codes "time* say\"x\" OR"))
read_match-build_fts_match_example = read_match-build_fts_match is_word (codes "time* say\"x\" OR")

abbrev failures : InvocationFilter
failures = record {
  function_name = some (codes "chat?");
  method = some (codes "post");
  status = none;
  status_class = some 5;
  error_kind = none;
  errors_only = true;
  from_ms = some 10;
  to_ms = none;
  q = some (codes "what?");
  limit = none;
  cursor = some (record { ts_ms = 7; id = codes "a" });
}
