-- ===== src/Schema/Refines.antt =====
-- The cached lists keep what they promise.
use sql_fuse.Base.{
  All, Bool-cases, List, Option, Text, [], ap, arith, if◌then◌else◌, inl, inr, leb, none, refl,
  some, true, ℕ, ◌+◌, ◌∙◌, ◌∷◌, ◌≡◌, ◌≤◌,
}
use sql_fuse.Cache.Types.{CacheManager, CacheConfig}
use sql_fuse.Cache.Write.{put_category, ttl_for_category}
use sql_fuse.Cache.Valid.{IsValid}
use sql_fuse.Cache.Get.{answer, get-kept}
use sql_fuse.Cache.Put.{put-IsValid, put-config, answer-put}
use sql_fuse.Schema.Cached.{
  join_lines, Fetched, fails, unkept, listed, keep_fetched, found, cached_list,
}
use sql_fuse.Schema.Lines.{IsLine, lines_of-join_lines}
use sql_fuse.Schema.Memo.{Memo, Call, memo_fetched, memo_call, memo_run, lookup_run}

abbrev pub AreLines : Fetched → Type 0
AreLines fails = Unit
AreLines (unkept names) = Unit
AreLines (listed names) = All IsLine names

abbrev MemoLines : Memo → Type 0
MemoLines none = Unit
MemoLines (some (expires, names)) = All IsLine names

-- The text of the list that is kept.
abbrev kept_text : Memo → ℕ → Option Text
kept_text none now = none
kept_text (some (expires, names)) now = if leb expires now then none else some (join_lines names)

-- From a time on the cache answers the kept list for the key.
record Agrees (key : Text) (ttl t : ℕ) (c : CacheManager) (memo : Memo) : Type 0 where
  valid : IsValid c
  on : c.config.enabled ≡ true
  ttl_is : c.config.schema_ttl ≡ ttl
  lines : MemoLines memo
  same : (later : ℕ) → t ≤ later → answer key later c ≡ kept_text memo later

-- The calls follow each other from a time on, and the lists that they would keep are lines.
abbrev pub InOrder : ℕ → List Call → Type 0
InOrder t [] = Unit
InOrder t (call ∷ calls) =
    (t ≤ call.now) × (call.now ≤ call.later) × AreLines call.fetched × InOrder call.later calls

module _ (key : Text) (ttl : ℕ) where
  -- Looking up what is not there any more.
  keep_fetched-Agrees :
      (later : ℕ) (fetched : Fetched) (c : CacheManager) (memo : Memo)
      → AreLines fetched
      → Agrees key ttl later c memo
      → (c' : CacheManager) × (keep_fetched key later fetched c
          ≡ some (c', (memo_fetched ttl later fetched memo).1))
        × Agrees key ttl later c' (memo_fetched ttl later fetched memo).0
  unfolding keep_fetched
  keep_fetched-Agrees later fails c memo h a = (c, refl, a)
  keep_fetched-Agrees later (unkept names) c memo h a = (c, refl, a)
  keep_fetched-Agrees later (listed names) c memo h a =
      let life : Option ℕ = some c.config.schema_ttl in
      let (c', done, valid) = put-IsValid key (join_lines names) life later c a.valid in
      let same_config = put-config key (join_lines names) life later c a.valid a.on done in
      (
        c',
        (unfold put_category ttl_for_category in rw done refl),
        record {
          valid = valid;
          on = ap (λ (x : CacheConfig). x.enabled) same_config ∙ a.on;
          ttl_is = ap (λ (x : CacheConfig). x.schema_ttl) same_config ∙ a.ttl_is;
          lines = h;
          same = λ t after.
              (answer-put key (join_lines names) life later c a.valid a.on done key t).0 refl
              ∙ ap (λ n. if leb (later + n) t then none else some (join_lines names)) a.ttl_is;
        },
      )

  -- The text that is found is that of the kept list.
  found-kept :
      (call : Call) (c' : CacheManager) (memo : Memo)
      → AreLines call.fetched
      → MemoLines memo
      → Agrees key ttl call.later c' memo
      → (c'' : CacheManager) × (found key call.later call.fetched c' (kept_text memo call.now)
          ≡ some (c'', (memo_call ttl call memo).1))
        × Agrees key ttl call.later c'' (memo_call ttl call memo).0
  unfolding found
  found-kept call c' none h lines a = keep_fetched-Agrees call.later call.fetched c' none h a
  found-kept call c' (some (expires, names)) h lines a = elim (Bool-cases (leb expires call.now)) [
    | inl old ↦ rw old (keep_fetched-Agrees call.later call.fetched c' (some (expires, names)) h a)
    | inr new ↦ rw new (c', rw (lines_of-join_lines names lines) refl, a)
  ]

  cached_list-Agrees :
      (call : Call) (t : ℕ) (c : CacheManager) (memo : Memo)
      → t ≤ call.now
      → call.now ≤ call.later
      → AreLines call.fetched
      → Agrees key ttl t c memo
      → (c' : CacheManager) × (cached_list key call.now call.later call.fetched c
          ≡ some (c', (memo_call ttl call memo).1))
        × Agrees key ttl call.later c' (memo_call ttl call memo).0
  unfolding cached_list
  cached_list-Agrees call t c memo before after h a =
      let (c', done, valid, same_config, keeps) = get-kept key call.now c a.valid in
      let a' : Agrees key ttl call.later c' memo = record {
        valid = valid;
        on = ap (λ (x : CacheConfig). x.enabled) same_config ∙ a.on;
        ttl_is = ap (λ (x : CacheConfig). x.schema_ttl) same_config ∙ a.ttl_is;
        lines = a.lines;
        same = λ u since.
            keeps key u (omega (arith, since, after))
            ∙ a.same u (omega (arith, since, after, before));
      } in
      let (c'', found_it, agrees) = found-kept call c' memo h a.lines a' in
      (c'', rw (done, a.same call.now before) found_it, agrees)

  lookup_run-Agrees :
      (calls : List Call) (t : ℕ) (c : CacheManager) (memo : Memo)
      → InOrder t calls
      → Agrees key ttl t c memo
      → (c' : CacheManager) × (lookup_run key calls c ≡ some (c', memo_run ttl calls memo))
        × IsValid c'
  unfolding lookup_run memo_run
  lookup_run-Agrees [] t c memo h a = (c, refl, a.valid)
  lookup_run-Agrees (call ∷ calls) t c memo (before, after, lines, order) a =
      let (c', done, a') = cached_list-Agrees call t c memo before after lines a in
      let (c'', rest, valid) = lookup_run-Agrees calls call.later c' _ order a' in
      (c'', rw (done, rest) refl, valid)

  -- The lookups of a list of names through a consistent cache that is on and holds nothing for
  -- the key, made one after another and with names that are lines of their own, run no erase
  -- through a missing iterator, give what a memo gives that keeps one list until its time to
  -- live ends, and leave the cache consistent.
  pub lookup_run-memo_run :
      (calls : List Call) (t : ℕ) (c : CacheManager)
      → IsValid c
      → c.config.enabled ≡ true
      → c.config.schema_ttl ≡ ttl
      → ((later : ℕ) → t ≤ later → answer key later c ≡ none)
      → InOrder t calls
      → (c' : CacheManager) × (lookup_run key calls c ≡ some (c', memo_run ttl calls none))
        × IsValid c'
  lookup_run-memo_run calls t c valid on ttl_is empty order =
      lookup_run-Agrees calls t c none order
        (record { valid = valid; on = on; ttl_is = ttl_is; lines = tt; same = empty })
