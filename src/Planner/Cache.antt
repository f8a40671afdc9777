-- ===== src/Planner/Cache.antt =====
-- packages/context-runtime/src/planner/cache.ts: the generation cache. A key is the identity itself,
-- which `JSON.stringify` writes without loss; it counts its hits and misses.
use yuhi.Prelude.{
  ◌≢◌, ◌⊎◌, ◌∙◌, ap, ℕ, suc, ◌+◌, String, str_eq, eq_iff, Bool, true, false, ◌&&◌, Option, none,
  some, List, [], ◌∷◌, ◌==◌, ◌≡◌, refl, arith, inl, inr, Bool-cases, if◌then◌else◌,
}
use yuhi.Planner.Types.{
  PrivacyMode, strict, balanced, trusted_local, SecretDeliveryMode, redact, developer_delivery,
  ContextIntent, debug, implement, test_failure, search, data_analysis, document_analysis, refactor,
  ContextPlanKind,
}

pub record GenerationCacheIdentity : Type 0 where
  pub object_id : String
  pub revision : ℕ
  pub privacy_mode : PrivacyMode
  pub secret_delivery_mode : SecretDeliveryMode
  pub intent : ContextIntent

pub record GenerationCacheEntry : Type 0 where
  pub plan_kind : ContextPlanKind
  pub strategy_version : String
  pub delivered_hash : String
  pub estimated_tokens : ℕ
  pub exact_characters : ℕ

abbrev same_privacy : PrivacyMode → PrivacyMode → Bool
same_privacy strict strict = true
same_privacy balanced balanced = true
same_privacy trusted_local trusted_local = true
same_privacy _ _ = false

abbrev same_delivery : SecretDeliveryMode → SecretDeliveryMode → Bool
same_delivery redact redact = true
same_delivery developer_delivery developer_delivery = true
same_delivery _ _ = false

-- The place of an intent among the eight.
abbrev intent_number : ContextIntent → ℕ
intent_number debug = 0
intent_number implement = 1
intent_number test_failure = 2
intent_number search = 3
intent_number data_analysis = 4
intent_number document_analysis = 5
intent_number refactor = 6
intent_number ContextIntent.unknown = 7

-- Whether two identities have the same key.
unfoldable pub same_identity : GenerationCacheIdentity → GenerationCacheIdentity → Bool
same_identity a b =
    str_eq a.object_id b.object_id
    && a.revision == b.revision
    && same_privacy a.privacy_mode b.privacy_mode
    && same_delivery a.secret_delivery_mode b.secret_delivery_mode
    && intent_number a.intent == intent_number b.intent

pub record GenerationCache : Type 0 where
  pub entries : List (GenerationCacheIdentity × GenerationCacheEntry)
  pub hits : ℕ
  pub misses : ℕ

unfoldable pub find_entry :
    GenerationCacheIdentity
    → List (GenerationCacheIdentity × GenerationCacheEntry)
    → Option GenerationCacheEntry
unfolding same_identity
find_entry id [] = none
find_entry id ((other, entry) ∷ rest) =
    let further = find_entry id rest in if same_identity other id then some entry else further

unfoldable pub put_entry :
    GenerationCacheIdentity
    → GenerationCacheEntry
    → List (GenerationCacheIdentity × GenerationCacheEntry)
    → List (GenerationCacheIdentity × GenerationCacheEntry)
unfolding same_identity
put_entry id entry [] = (id, entry) ∷ []
put_entry id entry ((other, old) ∷ rest) =
    let further = put_entry id entry rest in
    if same_identity other id then (other, entry) ∷ rest else (other, old) ∷ further

abbrev hit : GenerationCache → GenerationCache
hit cache = record { entries = cache.entries; hits = suc cache.hits; misses = cache.misses }

abbrev miss : GenerationCache → GenerationCache
miss cache = record { entries = cache.entries; hits = cache.hits; misses = suc cache.misses }

abbrev counted : GenerationCache → Option GenerationCacheEntry → GenerationCache
counted cache none = miss cache
counted cache (some entry) = hit cache

abbrev valid : String → Option GenerationCacheEntry → Option GenerationCacheEntry
valid version none = none
valid version (some entry) = if str_eq entry.strategy_version version then some entry else none

unfoldable pub get :
    GenerationCacheIdentity → GenerationCache → Option GenerationCacheEntry × GenerationCache
unfolding find_entry
get id cache = let found = find_entry id cache.entries in (found, counted cache found)

unfoldable pub get_valid :
    GenerationCacheIdentity
    → String
    → GenerationCache
    → Option GenerationCacheEntry × GenerationCache
unfolding find_entry
get_valid id version cache =
    let found = valid version (find_entry id cache.entries) in (found, counted cache found)

unfoldable pub set :
    GenerationCacheIdentity → GenerationCacheEntry → GenerationCache → GenerationCache
unfolding put_entry
set id entry cache = record {
  entries = put_entry id entry cache.entries;
  hits = cache.hits;
  misses = cache.misses;
}

-- A use of the cache, as the runtime makes it.
pub data CacheUse : Type 0 where
  getting : GenerationCacheIdentity → CacheUse
  getting_valid : GenerationCacheIdentity → String → CacheUse
  setting : GenerationCacheIdentity → GenerationCacheEntry → CacheUse

abbrev use_cache : CacheUse → GenerationCache → GenerationCache
use_cache (getting id) cache = (get id cache).1
use_cache (getting_valid id version) cache = (get_valid id version cache).1
use_cache (setting id entry) cache = set id entry cache

unfoldable pub run_cache : List CacheUse → GenerationCache → GenerationCache
unfolding get get_valid set
run_cache [] cache = cache
run_cache (u ∷ uses) cache = run_cache uses (use_cache u cache)

abbrev is_lookup : CacheUse → ℕ
is_lookup (setting id entry) = 0
is_lookup _ = 1

unfoldable pub lookups : List CacheUse → ℕ
lookups [] = 0
lookups (u ∷ uses) = is_lookup u + lookups uses

count_one :
    (u : CacheUse) (cache : GenerationCache)
    → (use_cache u cache).hits + (use_cache u cache).misses
      ≡ is_lookup u + (cache.hits + cache.misses)
unfolding get get_valid set
count_one (getting id) cache = ground arith
count_one (getting_valid id version) cache = ground arith
count_one (setting id entry) cache = ground arith

-- Over every sequence of uses of the cache, the hits and the misses together go up by the number of
-- lookups; putting entries in counts as neither.
pub run_cache-lookups :
    (uses : List CacheUse) (cache : GenerationCache)
    → (run_cache uses cache).hits + (run_cache uses cache).misses
      ≡ lookups uses + (cache.hits + cache.misses)
unfolding run_cache lookups
run_cache-lookups [] cache = omega arith
run_cache-lookups (u ∷ uses) cache =
    omega (arith, run_cache-lookups uses (use_cache u cache), count_one u cache)

eq_of_same_privacy : (a b : PrivacyMode) → same_privacy a b ≡ true → a ≡ b
eq_of_same_privacy strict strict h = refl
eq_of_same_privacy strict balanced h = absurd (ground (arith, h))
eq_of_same_privacy strict trusted_local h = absurd (ground (arith, h))
eq_of_same_privacy balanced balanced h = refl
eq_of_same_privacy balanced strict h = absurd (ground (arith, h))
eq_of_same_privacy balanced trusted_local h = absurd (ground (arith, h))
eq_of_same_privacy trusted_local trusted_local h = refl
eq_of_same_privacy trusted_local strict h = absurd (ground (arith, h))
eq_of_same_privacy trusted_local balanced h = absurd (ground (arith, h))

five_true :
    (a b c d e : Bool)
    → (a && b && c && d && e) ≡ true
    → (a ≡ true) × (b ≡ true) × (c ≡ true) × (d ≡ true) × (e ≡ true)
five_true a b c d e h = ground arith

eq_of_same_delivery : (a b : SecretDeliveryMode) → same_delivery a b ≡ true → a ≡ b
eq_of_same_delivery redact redact h = refl
eq_of_same_delivery redact developer_delivery h = absurd (ground (arith, h))
eq_of_same_delivery developer_delivery redact h = absurd (ground (arith, h))
eq_of_same_delivery developer_delivery developer_delivery h = refl

-- Identities with the same key look up the same.
same_identity-cong :
    (a b c : GenerationCacheIdentity)
    → same_identity a b ≡ true
    → same_identity a c ≡ same_identity b c
unfolding same_identity
same_identity-cong a b c h =
    let (name, r, p, d, n) =
      five_true (str_eq a.object_id b.object_id) (a.revision == b.revision)
        (same_privacy a.privacy_mode b.privacy_mode)
        (same_delivery a.secret_delivery_mode b.secret_delivery_mode)
        (intent_number a.intent == intent_number b.intent) h in
    let same_name : a.object_id ≡ b.object_id =
      ground (arith, name, eq_iff a.object_id b.object_id) in
    let same_revision : a.revision ≡ b.revision = ground (arith, r) in
    let same_intent : intent_number a.intent ≡ intent_number b.intent = ground (arith, n) in
    cc (
      same_name,
      same_revision,
      eq_of_same_privacy a.privacy_mode b.privacy_mode p,
      eq_of_same_delivery a.secret_delivery_mode b.secret_delivery_mode d,
      same_intent,
    )

same_privacy_refl : (a : PrivacyMode) → same_privacy a a ≡ true
same_privacy_refl strict = refl
same_privacy_refl balanced = refl
same_privacy_refl trusted_local = refl

same_delivery_refl : (a : SecretDeliveryMode) → same_delivery a a ≡ true
same_delivery_refl redact = refl
same_delivery_refl developer_delivery = refl

number_refl : (n : ℕ) → (n == n) ≡ true
number_refl n = ground arith

text_refl : (t : String) → str_eq t t ≡ true
text_refl t = ground (arith, eq_iff t t)

same_identity_refl : (a : GenerationCacheIdentity) → same_identity a a ≡ true
unfolding same_identity
same_identity_refl a =
    rw
      (
        text_refl a.object_id,
        number_refl a.revision,
        same_privacy_refl a.privacy_mode,
        same_delivery_refl a.secret_delivery_mode,
        number_refl (intent_number a.intent),
      )
      refl

distinct_keys :
    (a b c : GenerationCacheIdentity)
    → same_identity a b ≡ false
    → same_identity a c ≡ true
    → same_identity b c ≡ false
distinct_keys a b c h k = elim (Bool-cases (same_identity b c)) [
  | inr n ↦ n
  | inl both ↦
      let e : same_identity b b ≡ same_identity c b = same_identity-cong b c b both in
      absurd (ground (arith, h, same_identity_refl b, e, same_identity-cong a c b k))
]

found_or :
    (id asked : GenerationCacheIdentity) (entry : GenerationCacheEntry)
    (entries : List (GenerationCacheIdentity × GenerationCacheEntry))
    → find_entry asked (put_entry id entry entries)
      ≡ (if same_identity id asked then some entry else find_entry asked entries)
unfolding find_entry put_entry
found_or id asked entry [] = refl
found_or id asked entry ((other, old) ∷ rest) =
    let ih = found_or id asked entry rest in
    elim (Bool-cases (same_identity other id)) [
      | inl here ↦
          let e = same_identity-cong other id asked here in
          elim (Bool-cases (same_identity id asked)) [
            | inl y ↦ rw (here, e, y) refl
            | inr n ↦ rw (here, e, n) refl
          ]
      | inr there ↦ elim (Bool-cases (same_identity other asked)) [
        | inl y ↦ rw (there, y, distinct_keys other id asked there y) refl
        | inr n ↦ rw (there, n) ih
      ]
    ]

intent_eq : (a b : ContextIntent) → intent_number a ≡ intent_number b → a ≡ b
intent_eq a b h = ground (arith, h)

eq_of_same_identity : (a b : GenerationCacheIdentity) → same_identity a b ≡ true → a ≡ b
unfolding same_identity
eq_of_same_identity a b h =
    let (name, r, p, d, n) =
      five_true (str_eq a.object_id b.object_id) (a.revision == b.revision)
        (same_privacy a.privacy_mode b.privacy_mode)
        (same_delivery a.secret_delivery_mode b.secret_delivery_mode)
        (intent_number a.intent == intent_number b.intent) h in
    let same_name : a.object_id ≡ b.object_id =
      ground (arith, name, eq_iff a.object_id b.object_id) in
    let same_revision : a.revision ≡ b.revision = ground (arith, r) in
    cc (
      same_name,
      same_revision,
      eq_of_same_privacy a.privacy_mode b.privacy_mode p,
      eq_of_same_delivery a.secret_delivery_mode b.secret_delivery_mode d,
      intent_eq a.intent b.intent (ground (arith, n)),
    )

differ : (a b : GenerationCacheIdentity) → same_identity a b ≡ false → a ≢ b
differ a b h e = absurd (ground (arith, h, ap (same_identity a) e, same_identity_refl a))

-- After an entry is put in under an identity, a lookup by the very same object, revision, privacy
-- mode, delivery mode and intent finds it, and a lookup by an identity that differs in any of them
-- finds what it found before.
pub find_entry-put_entry :
    (id asked : GenerationCacheIdentity) (entry : GenerationCacheEntry)
    (entries : List (GenerationCacheIdentity × GenerationCacheEntry))
    → ((id ≡ asked) × (find_entry asked (put_entry id entry entries) ≡ some entry))
      ⊎ ((id ≢ asked) × (find_entry asked (put_entry id entry entries) ≡ find_entry asked entries))
find_entry-put_entry id asked entry entries = elim (Bool-cases (same_identity id asked)) [
  | inl same ↦ inl (eq_of_same_identity id asked same, found_or id asked entry entries ∙ rw same)
  | inr other ↦ inr (differ id asked other, found_or id asked entry entries ∙ rw other)
]
