-- ===== src/Handlers/Resource.antt =====
-- The resources that the patterns of `register_routes` (backend/src/handlers.cpp) name, by the parts
-- of a path.
use mathlib.Core.Path.{ap₂}
use frag.Prelude.{
  ◌≡◌, ◌≢◌, ◌⊎◌, inl, inr, refl, ap, ◌∙◌, sym, false, List, [], ◌∷◌, ◌++◌, none, some, Option-cases,
  All,
}
use frag.Text.{Bytes, codes, same}
use frag.Utils.Split.{split}
use frag.Server.Pattern.{match_pattern, match_parts, is_param}
use frag.Server.Pattern.Laws.{IsMatch, match_pattern_iff}
use frag.Handlers.Routes.{match_collection, match_message, match_item}

pub data Resource : Type 0 where
  health collection elsewhere : Resource
  message item : Bytes → Resource

abbrev pub api_parts : List Bytes → List Bytes
api_parts rest = [] ∷ codes "api" ∷ codes "fragments" ∷ rest

-- The resource that the parts of a path name.
pub data Names (parts : List Bytes) : Resource → Type 0 where
  names_health : parts ≡ [] ∷ codes "health" ∷ [] → Names parts health
  names_collection : parts ≡ api_parts [] → Names parts collection
  names_message :
      (message_id : Bytes)
      → parts ≡ api_parts (message_id ∷ codes "all" ∷ [])
      → Names parts (message message_id)
  names_item : (id : Bytes) → parts ≡ api_parts (id ∷ []) → Names parts (item id)
  names_none :
      parts ≢ [] ∷ codes "health" ∷ []
      → parts ≢ api_parts []
      → ((message_id : Bytes) → parts ≢ api_parts (message_id ∷ codes "all" ∷ []))
      → ((id : Bytes) → parts ≢ api_parts (id ∷ []))
      → Names parts elsewhere

module _ (path : Bytes) where
  pub match_health :
      split path b'/' ≡ [] ∷ codes "health" ∷ []
      → (match_pattern (codes "/health") path ≡ some [])
        × (match_pattern (codes "/api/fragments") path ≡ none)
        × (match_pattern (codes "/api/fragments/:message_id/all") path ≡ none)
        × (match_pattern (codes "/api/fragments/:id") path ≡ none)
  unfolding match_pattern match_parts same split
  match_health p = (rw p, rw p, rw p, rw p)

  pub more_collection :
      split path b'/' ≡ api_parts []
      → (match_pattern (codes "/api/fragments/:message_id/all") path ≡ none)
        × (match_pattern (codes "/api/fragments/:id") path ≡ none)
  unfolding match_pattern match_parts same split
  more_collection p = (rw p, rw p)

  pub more_message :
      (message_id : Bytes)
      → split path b'/' ≡ api_parts (message_id ∷ codes "all" ∷ [])
      → match_pattern (codes "/api/fragments/:id") path ≡ none
  unfolding match_pattern match_parts same split
  more_message message_id p = rw p

-- A match of parts that begin with some that are no parameters.
literal_prefix :
    (literals pp cp : List Bytes)
    → All (λ p. is_param p ≡ false) literals
    → IsMatch (literals ++ pp) cp
    → (rest : List Bytes) × (cp ≡ literals ++ rest) × IsMatch pp rest
literal_prefix [] pp cp tests h = (cp, refl, h)
literal_prefix (p ∷ literals) pp [] tests h = absurd h
literal_prefix (p ∷ literals) pp (c ∷ cp) (test, tests) (h, hs) =
    let (rest, e, matches) = literal_prefix literals pp cp tests hs in
    (
      rest,
      ap₂ (λ x xs. x ∷ xs) (elim h [ inl param ↦ cc (test, param) | inr same ↦ sym same ]) e,
      matches,
    )

no_more : (rest : List Bytes) → IsMatch [] rest → rest ≡ []
no_more [] h = refl
no_more (c ∷ rest) h = absurd h

one_more : (p : Bytes) (rest : List Bytes) → IsMatch (p ∷ []) rest → (c : Bytes) × (rest ≡ c ∷ [])
one_more p [] h = absurd h
one_more p (c ∷ rest) (h, hs) = (c, ap (◌∷◌ c) (no_more rest hs))

health_parts :
    (parts : List Bytes)
    → IsMatch (split (codes "/health") b'/') parts
    → parts ≡ [] ∷ codes "health" ∷ []
unfolding split is_param
health_parts parts h =
    let (rest, e, ends) = literal_prefix ([] ∷ codes "health" ∷ []) [] parts (refl, (refl, tt)) h in
    rw (no_more rest ends) at e

in_api :
    (pp parts : List Bytes)
    → IsMatch (api_parts pp) parts
    → (rest : List Bytes) × (parts ≡ api_parts rest) × IsMatch pp rest
unfolding is_param
in_api pp parts h = literal_prefix (api_parts []) pp parts (refl, (refl, (refl, tt))) h

collection_parts :
    (parts : List Bytes)
    → IsMatch (split (codes "/api/fragments") b'/') parts
    → parts ≡ api_parts []
unfolding split
collection_parts parts h = let (rest, e, ends) = in_api [] parts h in rw (no_more rest ends) at e

item_parts :
    (parts : List Bytes)
    → IsMatch (split (codes "/api/fragments/:id") b'/') parts
    → (id : Bytes) × (parts ≡ api_parts (id ∷ []))
unfolding split
item_parts parts h =
    let (rest, e, ends) = in_api (codes ":id" ∷ []) parts h in
    let (id, last) = one_more (codes ":id") rest ends in (id, rw last at e)

message_parts :
    (parts : List Bytes)
    → IsMatch (split (codes "/api/fragments/:message_id/all") b'/') parts
    → (message_id : Bytes) × (parts ≡ api_parts (message_id ∷ codes "all" ∷ []))
unfolding split is_param
message_parts parts h =
    let (rest, e, ends) = in_api (codes ":message_id" ∷ codes "all" ∷ []) parts h in
    let (message_id, last) = all_parts rest ends in (message_id, rw last at e)
  where
    all_parts :
        (rest : List Bytes)
        → IsMatch (codes ":message_id" ∷ codes "all" ∷ []) rest
        → (message_id : Bytes) × (rest ≡ message_id ∷ codes "all" ∷ [])
    all_parts [] h = absurd h
    all_parts (c ∷ rest) (h, hs) =
        let (tail, e, ends) = literal_prefix (codes "all" ∷ []) [] rest (refl, tt) hs in
        (c, ap (◌∷◌ c) (e ∙ ap (◌∷◌ (codes "all")) (no_more tail ends)))

-- A pattern matches the path, so that its parts are those of the pattern, or it does not.
by_pattern {ℓ} :
    {P : Type ℓ} (pattern_text path : Bytes)
    → (IsMatch (split pattern_text b'/') (split path b'/') → P)
    → P ⊎ (match_pattern pattern_text path ≡ none)
by_pattern pattern_text path f = elim (Option-cases (match_pattern pattern_text path)) [
  | inl e ↦ inr e
  | inr (params, e) ↦ inl (f ((match_pattern_iff pattern_text path).0 (rw e tt)))
]

pub path-Names : (path : Bytes) → (r : Resource) × Names (split path b'/') r
path-Names path = elim (by_pattern (codes "/health") path (health_parts _)) [
  | inl e ↦ (health, names_health e)
  | inr no_health ↦ elim (by_pattern (codes "/api/fragments") path (collection_parts _)) [
    | inl e ↦ (collection, names_collection e)
    | inr no_collection ↦
        elim (by_pattern (codes "/api/fragments/:message_id/all") path (message_parts _)) [
          | inl (message_id, e) ↦ (message message_id, names_message message_id e)
          | inr no_message ↦ elim (by_pattern (codes "/api/fragments/:id") path (item_parts _)) [
            | inl (id, e) ↦ (item id, names_item id e)
            | inr no_item ↦ (
              elsewhere,
              names_none (λ p. cc ((match_health path p).0, no_health))
                  (λ p. cc ((match_collection path p).1, no_collection))
                  (λ m p. cc ((match_message path m p).2, no_message))
                  (λ i p. cc ((match_item path i p).3, no_item)),
            )
          ]
        ]
  ]
]

-- A path that names nothing matches no pattern.
pub match_none :
    (path : Bytes)
    → Names (split path b'/') elsewhere
    → (match_pattern (codes "/health") path ≡ none)
      × (match_pattern (codes "/api/fragments") path ≡ none)
      × (match_pattern (codes "/api/fragments/:message_id/all") path ≡ none)
      × (match_pattern (codes "/api/fragments/:id") path ≡ none)
match_none path (names_none no_health no_collection no_message no_item) = (
  unmatched path (codes "/health") (λ h. no_health (health_parts _ h)),
  unmatched path (codes "/api/fragments") (λ h. no_collection (collection_parts _ h)),
  unmatched path (codes "/api/fragments/:message_id/all")
      (λ h. let (m, e) = message_parts _ h in no_message m e),
  unmatched path (codes "/api/fragments/:id") (λ h. let (i, e) = item_parts _ h in no_item i e),
)
  where
    unmatched :
        (path pattern_text : Bytes)
        → (IsMatch (split pattern_text b'/') (split path b'/') → ⊥)
        → match_pattern pattern_text path ≡ none
    unmatched path pattern_text refuses = elim (by_pattern pattern_text path refuses) [
      | inl h ↦ absurd h
      | inr e ↦ e
    ]
