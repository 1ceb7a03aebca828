-- ===== src/LogQuery/Pages.antt =====
-- The pages of `searchLogs`, one after the other.
use mathlib.Core.List.{append-nil}
use tube.Common.{
  ℕ, zero, suc, ◌+◌, ◌-◌, ◌≡◌, refl, ap, sym, ◌∙◌, ◌<◌, Bool, true, false, ◌&&◌, Option, none, some,
  List, [], ◌∷◌, ◌++◌, ltb, if◌then◌else◌, length, take, drop, filter, arith, length-drop,
  take-append-drop,
}
use tube.Common.Text.{Text, codes}
use tube.LogQuery.Statement.{stem, glue, values, search_logs_first, search_logs_below}
use tube.LogQuery.{
  LogRecord, LogSearchFilter, number, Query, clamp_limit, search_logs, page_of, last_id,
  search_page,
}

-- The rows with an id below a cursor.
abbrev pub older : Option ℕ → List LogRecord → List LogRecord
older none rows = rows
older (some b) rows = filter (λ r. ltb r.id b) rows

abbrev pub all_below : ℕ → List LogRecord → Bool
all_below b [] = true
all_below b (r ∷ rs) = ltb r.id b && all_below b rs

abbrev pub is_descending : List LogRecord → Bool
is_descending [] = true
is_descending (r ∷ rs) = all_below r.id rs && is_descending rs

older-all_below : (b : ℕ) (rs : List LogRecord) → all_below b rs ≡ true → older (some b) rs ≡ rs
older-all_below b [] h = refl
older-all_below b (r ∷ rs) h = ground (arith, h, older-all_below b rs)

all_below-older : (b : ℕ) (rs : List LogRecord) → all_below b (older (some b) rs) ≡ true
all_below-older b [] = refl
all_below-older b (r ∷ rs) = ground (arith, all_below-older b rs)

all_below_filtered :
    (b c : ℕ) (rs : List LogRecord) → all_below b rs ≡ true → all_below b (older (some c) rs) ≡ true
all_below_filtered b c [] h = refl
all_below_filtered b c (r ∷ rs) h = ground (arith, h, all_below_filtered b c rs)

is_descending-older :
    (c : Option ℕ) (rs : List LogRecord)
    → is_descending rs ≡ true
    → is_descending (older c rs) ≡ true
is_descending-older none rs h = h
is_descending-older (some c) [] h = refl
is_descending-older (some c) (r ∷ rs) h =
    ground (arith, h, is_descending-older (some c) rs, all_below_filtered r.id c rs)

older-older :
    (b c : ℕ) (rs : List LogRecord)
    → ltb b c ≡ true
    → older (some b) (older (some c) rs) ≡ older (some b) rs
older-older b c [] h = refl
older-older b c (r ∷ rs) h = ground (arith, h, older-older b c rs)

-- The last row of a page is below what all are below.
last_id-below :
    (c b l : ℕ) (rs : List LogRecord)
    → all_below c rs ≡ true
    → last_id (take l rs) ≡ some b
    → ltb b c ≡ true
last_id-below c b zero rs h e = ground (arith, e)
last_id-below c b (suc l) [] h e = ground (arith, e)
last_id-below c b (suc zero) (r ∷ rs) h e = ground (arith, h, e)
last_id-below c b (suc (suc l)) (r ∷ []) h e = ground (arith, h, e)
last_id-below c b (suc (suc l)) (r ∷ s ∷ rs) h e =
    last_id-below c b (suc l) (s ∷ rs) (ground (arith, h)) e

-- What is older than the last row of a page stands behind the page.
older-last_id :
    (b l : ℕ) (rs : List LogRecord)
    → is_descending rs ≡ true
    → last_id (take l rs) ≡ some b
    → older (some b) rs ≡ drop l rs
older-last_id b zero rs h e = ground (arith, e)
older-last_id b (suc l) [] h e = ground (arith, e)
older-last_id b (suc zero) (r ∷ rs) h e = ground (arith, h, e, older-all_below r.id rs)
older-last_id b (suc (suc l)) (r ∷ []) h e = ground (arith, h, e)
older-last_id b (suc (suc l)) (r ∷ s ∷ rs) h e = ground (
  arith,
  older-last_id b (suc l) (s ∷ rs) (ground (arith, h)) e,
  last_id-below r.id b (suc l) (s ∷ rs) (ground (arith, h)) e,
)

take-take : (l : ℕ) (rs : List LogRecord) → take l (take (l + 1) rs) ≡ take l rs
take-take zero rs = ground arith
take-take (suc l) [] = ground arith
take-take (suc l) (r ∷ rs) = ground (arith, take-take l rs)

ltb-length-take :
    (l : ℕ) (rs : List LogRecord) → ltb l (length (take (l + 1) rs)) ≡ ltb l (length rs)
ltb-length-take zero [] = refl
ltb-length-take zero (r ∷ rs) = ground arith
ltb-length-take (suc l) [] = ground arith
ltb-length-take (suc l) (r ∷ rs) = ground (arith, ltb-length-take l rs)

last_id-none : (l : ℕ) (rs : List LogRecord) → last_id (take (suc l) rs) ≡ none → rs ≡ []
last_id-none l [] e = refl
last_id-none zero (r ∷ rs) e = ground (arith, e)
last_id-none (suc l) (r ∷ []) e = ground (arith, e)
last_id-none (suc l) (r ∷ s ∷ rs) e = ground (arith, e, last_id-none l (s ∷ rs))

take_all : (l : ℕ) (rs : List LogRecord) → ltb l (length rs) ≡ false → take l rs ≡ rs
take_all zero [] h = refl
take_all (suc l) [] h = refl
take_all zero (r ∷ rs) h = ground (arith, h)
take_all (suc l) (r ∷ rs) h = ground (arith, take_all l rs, h)

older_next :
    (l b : ℕ) (rows : List LogRecord) (c : Option ℕ)
    → is_descending rows ≡ true
    → last_id (take l (older c rows)) ≡ some b
    → older (some b) rows ≡ drop l (older c rows)
older_next l b rows none d e = older-last_id b l rows d e
older_next l b rows (some c) d e =
    sym
      (older-older b c rows (last_id-below c b l (older (some c) rows) (all_below-older c rows) e))
    ∙ older-last_id b l (older (some c) rows) (is_descending-older (some c) rows d) e

abbrev and_next : Option ℕ → (ℕ → List LogRecord) → List LogRecord
and_next none g = []
and_next (some b) g = g b

abbrev next_of : ℕ → List LogRecord → Option ℕ
next_of l rs = if ltb l (length rs) then last_id (take l rs) else none

page_of-take :
    (l : ℕ) (rs : List LogRecord)
    → page_of l (take (l + 1) rs) ≡ record { items = take l rs; next_before_id = next_of l rs }
unfolding page_of
page_of-take l rs = ground (arith, take-take l rs, ltb-length-take l rs)

shorter :
    (l fuel : ℕ) (rs older_rows : List LogRecord)
    → length rs < suc fuel
    → ltb (suc l) (length rs) ≡ true
    → older_rows ≡ drop (suc l) rs
    → length older_rows < fuel
shorter l fuel rs older_rows enough m e = ground (arith, enough, m, e, length-drop (suc l) rs)

-- A page, and what the next ones give.
page_and_next :
    (l fuel : ℕ) (rows : List LogRecord) (c : Option ℕ) (g : ℕ → List LogRecord) (more : Bool)
    (o : Option ℕ)
    → is_descending rows ≡ true
    → length (older c rows) < suc fuel
    → ((b : ℕ) → length (older (some b) rows) < fuel → g b ≡ older (some b) rows)
    → ltb (suc l) (length (older c rows)) ≡ more
    → last_id (take (suc l) (older c rows)) ≡ o
    → take (suc l) (older c rows) ++ and_next (if more then o else none) g ≡ older c rows
page_and_next l fuel rows c g false o d enough ih m e =
    append-nil (take (suc l) (older c rows)) ∙ take_all (suc l) (older c rows) m
page_and_next l fuel rows c g true none d enough ih m e =
    ground (arith, m, last_id-none l (older c rows) e)
page_and_next l fuel rows c g true (some b) d enough ih m e =
    ap (λ rs. take (suc l) (older c rows) ++ rs)
      (ih b (
          shorter l fuel (older c rows) (older (some b) rows) enough m
            (older_next (suc l) b rows c d e))
        ∙ older_next (suc l) b rows c d e)
    ∙ take-append-drop (suc l) (older c rows)

module _ (has_word : Text → Bool) (answer : Query → List LogRecord) where
  -- The pages from a cursor on, as a client asks for them until there is no cursor; at most `fuel`.
  pub all_pages : ℕ → Option ℕ → LogSearchFilter → List LogRecord
  unfolding search_page page_of
  all_pages zero c f = []
  all_pages (suc fuel) c f =
      let page = search_page has_word answer (record f { before_id = c }) in
      page.items ++ and_next page.next_before_id (λ b. all_pages fuel (some b) f)

  -- SQLite on a statement of the log lines, narrowed by other conditions with their values: ordered by
  -- `l.id DESC` and with a limit it gives the newest of the rows that those leave, and with a condition
  -- `l.id < ?` after them the newest of those below the value.
  abbrev pub Answers : LogSearchFilter → List LogRecord → Type 0
  Answers f rows =
      ((n : ℕ)
        → answer (record {
          sql = stem has_word f ++ codes " ORDER BY l.id DESC LIMIT ?";
          params = values has_word f ++ number n ∷ [];
        })
          ≡ take n rows)
      × ((b n : ℕ)
          → answer (record {
            sql =
                stem has_word f
                ++ glue has_word f
                ++ codes "l.id < ?"
                ++ codes " ORDER BY l.id DESC LIMIT ?";
            params = values has_word f ++ number b ∷ number n ∷ [];
          })
            ≡ take n (older (some b) rows))

  answered :
      (f : LogSearchFilter) (rows : List LogRecord) (c : Option ℕ)
      → Answers f rows
      → answer (search_logs has_word (record f { before_id = c }))
        ≡ take (clamp_limit f.limit + 1) (older c rows)
  answered f rows none h = ap answer (search_logs_first has_word f) ∙ h.0 (clamp_limit f.limit + 1)
  answered f rows (some b) h =
      ap answer (search_logs_below has_word f b) ∙ h.1 b (clamp_limit f.limit + 1)

  page_rows :
      (f : LogSearchFilter) (rows : List LogRecord) (c : Option ℕ)
      → Answers f rows
      → search_page has_word answer (record f { before_id = c }) ≡ record {
        items = take (clamp_limit f.limit) (older c rows);
        next_before_id = next_of (clamp_limit f.limit) (older c rows);
      }
  unfolding search_page
  page_rows f rows c h =
      ap (page_of (clamp_limit f.limit)) (answered f rows c h)
      ∙ page_of-take (clamp_limit f.limit) (older c rows)

  pages_from :
      (fuel l : ℕ) (f : LogSearchFilter) (rows : List LogRecord) (c : Option ℕ)
      → clamp_limit f.limit ≡ suc l
      → is_descending rows ≡ true
      → Answers f rows
      → length (older c rows) < fuel
      → all_pages fuel c f ≡ older c rows
  unfolding all_pages
  pages_from zero l f rows c k d h enough = ground (arith, enough)
  pages_from (suc fuel) l f rows c k d h enough =
      let next : ℕ → List LogRecord = λ b. all_pages fuel (some b) f in
      ap (λ p. p.items ++ and_next p.next_before_id next) (page_rows f rows c h)
      ∙ ap (λ n. take n (older c rows) ++ and_next (next_of n (older c rows)) next) k
      ∙ page_and_next l fuel rows c next _ _ d enough
          (λ b less. pages_from fuel l f rows (some b) k d h less) refl refl

clamp_limit-positive : (o : Option ℕ) → clamp_limit o ≡ suc (clamp_limit o - 1)
unfolding clamp_limit
clamp_limit-positive none = ground arith
clamp_limit-positive (some zero) = ground arith
clamp_limit-positive (some (suc n)) = ground arith

-- A client that follows the cursors of `searchLogs` from the first page on gets every matching row
-- exactly once, from the newest to the oldest, within one page more than there are rows, and nothing
-- after them however long it asks. The rows are those that the other conditions leave, with
-- distinct ids and the newest first, and SQLite keeps to the order, the limit and the condition on the
-- id of a statement.
pub all_pages-rows :
    (has_word : Text → Bool) (answer : Query → List LogRecord) (f : LogSearchFilter)
    (rows : List LogRecord) (fuel : ℕ)
    → is_descending rows ≡ true
    → Answers has_word answer f rows
    → length rows < fuel
    → all_pages has_word answer fuel none f ≡ rows
all_pages-rows has_word answer f rows fuel d h enough =
    pages_from has_word answer fuel (clamp_limit f.limit - 1) f rows none
      (clamp_limit-positive f.limit) d h enough
