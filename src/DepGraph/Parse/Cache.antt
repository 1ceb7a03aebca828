-- ===== src/DepGraph/Parse/Cache.antt =====
-- The cache of parsed files.
use tube.Common.{
  ◌≡◌, refl, ap, sym, ◌∙◌, Bool, true, false, Option, none, some, [], if◌then◌else◌, ◌==◌, text_eq,
  arith, text_beq_iff,
}
use tube.Common.JsMap
use tube.Common.JsMap.{JsMap}
use tube.Common.Text.{Text}
use tube.DepGraph.Walk.{ParsedFile}
use tube.DepGraph.Parse.{
  Resolver, File, Entry, is_current, current_or_none, scan_file, use_cached, parse_stat, parse_file,
}

-- The parse without a cache.
unfoldable pub parse_afresh : Resolver → Text → Option File → Option ParsedFile
unfolding scan_file
parse_afresh b path none = none
parse_afresh b path (some f) = some (scan_file b path f)

-- What the cache takes for a file on a disk is what a parse afresh gives.
pub IsSound : Resolver → (Text → Option File) → JsMap Text Entry → Type 0
IsSound b disk cache =
    (path : Text) (f : File) (p : ParsedFile)
    → disk path ≡ some f
    → current_or_none f (JsMap.get path cache) ≡ some p
    → p ≡ scan_file b path f

pub empty-IsSound : (b : Resolver) (disk : Text → Option File) → IsSound b disk []
unfolding IsSound JsMap.get
empty-IsSound b disk path f p e h = ground (arith, h)

abbrev some_or {ℓ} : {A : Type ℓ} → A → Option A → A
some_or a none = a
some_or a (some b) = b

-- An entry of another file is as before, and the one of the file is this.
IsSound-at :
    (b : Resolver) (disk : Text → Option File) (path : Text) (o : Option Entry)
    (cache cache' : JsMap Text Entry)
    → ((j : Text) → JsMap.get j cache' ≡ (if path == j then o else JsMap.get j cache))
    → ((f : File) (p : ParsedFile)
        → disk path ≡ some f
        → current_or_none f o ≡ some p
        → p ≡ scan_file b path f)
    → IsSound b disk cache
    → IsSound b disk cache'
unfolding IsSound
IsSound-at b disk path o cache cache' get here sound j f p e h = entry (path == j) refl
  where
    entry : (t : Bool) → (path == j) ≡ t → p ≡ scan_file b j f
    entry true t =
        let same : path ≡ j = (text_beq_iff path j).0 t in
        here f p (ap disk same ∙ e) (
          ap (current_or_none f) (sym (get j ∙ ap (λ c. if c then o else JsMap.get j cache) t)) ∙ h)
        ∙ ap (λ q. scan_file b q f) same
    entry false t =
        sound j f p e (
          ap (current_or_none f) (sym (get j ∙ ap (λ c. if c then o else JsMap.get j cache) t)) ∙ h)

module _ (b : Resolver) (disk : Text → Option File) (path : Text) (cache : JsMap Text Entry) where
  -- What a parse gives, and the cache after it.
  IsAfresh : Option File → Option ParsedFile × JsMap Text Entry → Type 0
  IsAfresh o r = (r.0 ≡ parse_afresh b path o) × IsSound b disk r.1

  scanned-IsSound :
      (f : File)
      → disk path ≡ some f
      → IsSound b disk cache
      → IsSound b disk (
          JsMap.set path
            (record { mtime_ms = f.mtime_ms; size = f.size; parsed = scan_file b path f })
            cache)
  scanned-IsSound f e sound =
      IsSound-at b disk path
        (some (record { mtime_ms = f.mtime_ms; size = f.size; parsed = scan_file b path f })) cache
        _ (λ j. JsMap.get-set path j _ cache)
        (λ f' p e' h. ground (arith, h) ∙ ap (scan_file b path) (ap (some_or f) (sym e ∙ e'))) sound

  use_cached-IsAfresh :
      (f : File) (c : Option ParsedFile)
      → disk path ≡ some f
      → current_or_none f (JsMap.get path cache) ≡ c
      → IsSound b disk cache
      → IsAfresh (some f) (use_cached b path f cache c)
  unfolding use_cached parse_afresh IsAfresh IsSound
  use_cached-IsAfresh f (some p) e h sound = (ap some (sound path f p e h), sound)
  use_cached-IsAfresh f none e h sound = (refl, scanned-IsSound f e sound)

  parse_stat-IsAfresh :
      (o : Option File)
      → disk path ≡ o
      → IsSound b disk cache
      → IsAfresh o (parse_stat b path o cache)
  unfolding parse_stat parse_afresh IsAfresh
  parse_stat-IsAfresh none e sound = (
    refl,
    IsSound-at b disk path none cache _ (λ j. JsMap.get-delete path j cache)
        (λ f p e' h. ground (arith, h)) sound,
  )
  parse_stat-IsAfresh (some f) e sound =
      use_cached-IsAfresh f (current_or_none f (JsMap.get path cache)) e refl sound

pub parse_file-parse_afresh :
    (b : Resolver) (disk : Text → Option File) (path : Text) (cache : JsMap Text Entry)
    → IsSound b disk cache
    → ((parse_file b disk path cache).0 ≡ parse_afresh b path (disk path))
      × IsSound b disk (parse_file b disk path cache).1
unfolding parse_file IsAfresh
parse_file-parse_afresh b disk path cache sound =
    parse_stat-IsAfresh b disk path cache (disk path) refl sound

-- A file whose time and size are cached is not classified again, whatever the resolver finds now.
parse_file-current :
    (b : Resolver) (disk : Text → Option File) (path : Text) (cache : JsMap Text Entry) (f : File)
    (e : Entry)
    → disk path ≡ some f
    → JsMap.get path cache ≡ some e
    → is_current f (some e) ≡ true
    → (parse_file b disk path cache).0 ≡ some e.parsed
unfolding parse_file parse_stat use_cached
parse_file-current b disk path cache f e d h c = ground (arith, d, h, c)
