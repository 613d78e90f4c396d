-- ===== src/File/Loads.antt =====
-- `loadContent` of src/VirtualFile.cpp, and the reads that the cache answers.
use sql_fuse.Base.{
  Option, Option-cases, Text, [], arith, inl, inr, none, refl, some, true, ℕ, ◌+◌, ◌<◌, ◌∙◌, ◌∷◌,
  ◌≡◌,
}
use sql_fuse.Router.Types.{ParsedPath}
use sql_fuse.Cache.Types.{CacheManager}
use sql_fuse.Cache.Write.{put_category, ttl_for_category}
use sql_fuse.Cache.Valid.{IsValid}
use sql_fuse.Cache.Get.{answer, get-answer}
use sql_fuse.Cache.Put.{put-IsValid, answer-put}
use sql_fuse.File.Types.{VirtualFile, new_file}
use sql_fuse.File.Key.{get_cache_key}
use sql_fuse.File.Load.{
  Outcome, text, throws, Generator, Generators, generate, loaded, keep, finish, load_miss,
  load_content,
}

-- A generator may store and drop entries, and leaves the cache consistent and configured as it was.
pub record Keeps (g : Generator) : Type 0 where
  pub valid : (p : ParsedPath) (c : CacheManager) → IsValid c → IsValid (g p c).0
  pub config : (p : ParsedPath) (c : CacheManager) → (g p c).0.config ≡ c.config

keep-IsValid :
    (key content : Text) (now : ℕ) (c : CacheManager)
    → IsValid c
    → (c' : CacheManager) × (keep key content now c ≡ some c') × IsValid c'
unfolding keep put_category
keep-IsValid key [] now c v = (c, refl, v)
keep-IsValid key (b ∷ s) now c v = put-IsValid key (b ∷ s) _ now c v

-- What a file shows once it is loaded.
abbrev pub shown : Option Text → Outcome → Text
shown (some cached) outcome = cached
shown none (text content) = content
shown none (throws message) = []

finish-IsValid :
    (now : ℕ) (f : VirtualFile) (c : CacheManager) (outcome : Outcome)
    → IsValid c
    → (c' : CacheManager) × (f' : VirtualFile) × (finish now f c outcome ≡ some (c', f'))
      × IsValid c'
      × (f'.content ≡ shown none outcome)
      × (f'.content_loaded ≡ true)
      × (f'.modified ≡ f.modified)
unfolding finish
finish-IsValid now f c (throws message) v = (c, _, refl, v, refl, refl, refl)
finish-IsValid now f c (text content) v =
    let (c', e, v') = keep-IsValid (get_cache_key f.path) content now c v in
    (c', loaded content f, rw e refl, v', refl, refl, refl)

module _ (g : Generators) (now : ℕ) (f : VirtualFile) where
  abbrev pub made : CacheManager → CacheManager × Outcome
  made c = generate g f.path.format f.path.type f.path c

  -- Loading a file on a consistent cache, with a generator that keeps it so, has no undefined
  -- behaviour and leaves the cache consistent. The file then shows the cached content if the
  -- cache answers, else what the generator made, and nothing if it threw. Whether the file was
  -- modified does not change.
  pub load_content-shown :
      (c : CacheManager)
      → Keeps (generate g f.path.format f.path.type)
      → IsValid c
      → (c₁ c' : CacheManager) × (f' : VirtualFile) × (load_content g now f c ≡ some (c', f'))
        × IsValid c'
        × (f'.content ≡ shown (answer (get_cache_key f.path) now c) (made c₁).1)
        × (f'.content_loaded ≡ true)
        × (f'.modified ≡ f.modified)
  unfolding load_content
  load_content-shown c keeps v =
      let (c₁, e, v₁, _) = get-answer (get_cache_key f.path) now c v in
      elim (Option-cases (answer (get_cache_key f.path) now c)) [
        | inr (s, hit) ↦ (
          c₁,
          c₁,
          loaded s f,
          rw (e, hit) (unfold load_miss in refl),
          v₁,
          rw hit refl,
          refl,
          refl,
        )
        | inl missing ↦
            let (c', f', e', v', shows, done, same) =
              finish-IsValid now f (made c₁).0 (made c₁).1 (keeps.valid f.path c₁ v₁) in
            (c₁, c', f', rw (e, missing) (unfold load_miss in e'), v', rw missing shows, done, same)
      ]

-- A cached text is shown, whatever the generators would make.
load_content_cached :
    (g : Generators) (now : ℕ) (f : VirtualFile) (c : CacheManager) (s : Text)
    → IsValid c
    → answer (get_cache_key f.path) now c ≡ some s
    → (c' : CacheManager) × (load_content g now f c ≡ some (c', loaded s f))
unfolding load_content
load_content_cached g now f c s v hit =
    let (c₁, e, v₁, _) = get-answer (get_cache_key f.path) now c v in
    (c₁, rw (e, hit) (unfold load_miss in refl))

keep-answer :
    (key s : Text) (b now later : ℕ) (c : CacheManager)
    → IsValid c
    → c.config.enabled ≡ true
    → later < now + c.config.data_ttl
    → (c' : CacheManager) × (keep key (b ∷ s) now c ≡ some c')
      × IsValid c'
      × (answer key later c' ≡ some (b ∷ s))
unfolding keep put_category ttl_for_category
keep-answer key s b now later c v on early =
    let (c', e, v') = put-IsValid key (b ∷ s) (some c.config.data_ttl) now c v in
    let stays = (answer-put key (b ∷ s) (some c.config.data_ttl) now c v on e key later).0 refl in
    (c', e, v', ground (arith, stays))

module _ (g : Generators) (p : ParsedPath) (now later : ℕ) (c : CacheManager) (b : ℕ)
    (s : Text) where
  -- A generated text that is not empty is cached.
  load_content_made :
      Keeps (generate g p.format p.type)
      → ((c₁ : CacheManager) → (generate g p.format p.type p c₁).1 ≡ text (b ∷ s))
      → IsValid c
      → c.config.enabled ≡ true
      → answer (get_cache_key p) now c ≡ none
      → later < now + c.config.data_ttl
      → (c' : CacheManager) × (load_content g now (new_file p) c
          ≡ some (c', loaded (b ∷ s) (new_file p)))
        × IsValid c'
        × (answer (get_cache_key p) later c' ≡ some (b ∷ s))
  unfolding load_content
  load_content_made keeps makes v on missing early =
      let (c₁, e₁, v₁, cfg₁) = get-answer (get_cache_key p) now c v in
      let c₂ : CacheManager = (generate g p.format p.type p c₁).0 in
      let cfg : c₂.config ≡ c.config = keeps.config p c₁ ∙ cfg₁ in
      let (c', e', v', stays) =
        keep-answer (get_cache_key p) s b now later c₂ (keeps.valid p c₁ v₁) (rw cfg on)
          (rw cfg early) in
      (c', rw (e₁, missing) (unfold load_miss finish in rw (makes c₁, e') refl), v', stays)

-- A text that is not empty and was generated for one file, into a consistent cache that is on
-- and had no answer for its key, is what any file with the same key shows, until the time to
-- live of the data has passed and whatever its generator would make by then.
pub load_content-load_content :
    (g g' : Generators) (p q : ParsedPath) (now later : ℕ) (c : CacheManager) (b : ℕ) (s : Text)
    → Keeps (generate g p.format p.type)
    → ((c₁ : CacheManager) → (generate g p.format p.type p c₁).1 ≡ text (b ∷ s))
    → IsValid c
    → c.config.enabled ≡ true
    → answer (get_cache_key p) now c ≡ none
    → get_cache_key p ≡ get_cache_key q
    → later < now + c.config.data_ttl
    → (c' c'' : CacheManager) × (load_content g now (new_file p) c
        ≡ some (c', loaded (b ∷ s) (new_file p)))
      × (load_content g' later (new_file q) c' ≡ some (c'', loaded (b ∷ s) (new_file q)))
load_content-load_content g g' p q now later c b s keeps makes v on missing same early =
    let (c', e, v', stays) = load_content_made g p now later c b s keeps makes v on missing early in
    let (c'', e') = load_content_cached g' later (new_file q) c' (b ∷ s) v' (rw (← same) stays) in
    (c', c'', e, e')
