-- ===== src/Server/Query/RoundTrip.antt =====
-- `parse_query` of backend/src/server.cpp on a query string that is written from pairs.
use frag.Prelude.{
  ℕ, ◌+◌, ◌/◌, ◌%◌, ◌<◌, ◌≡◌, ◌≢◌, refl, sym, ap, ◌∙◌, true, false, inl, inr, List, [], ◌∷◌, ◌++◌,
  map, some, arith, All, All-append, Bool-cases, length, take-append, drop_behind, is_empty-append,
}
use frag.Text.{Bytes, find}
use frag.Text.Laws.{find_zero, find_at-skip, find_at-append}
use frag.Dictionary.{put, put_all, put_all-new, HasDistinctKeys}
use frag.Utils.Split.Laws.{Lacks}
use frag.Utils.Split.RoundTrip.{joined_by, EndsFull, split-joined_by}
use frag.Utils.UrlDecode.RoundTrip.{
  is_unreserved, upper_hex, percent_encode, url_decode-percent_encode,
}
use frag.Server.Query.{add_pair, add_pairs, parse_query}

abbrev pub IsBytes : Bytes → Type 0
IsBytes = All (λ c. c < 256)

pub upper_hex-unreserved : (n : ℕ) → n < 16 → is_unreserved (upper_hex n) ≡ true
unfolding is_unreserved upper_hex
upper_hex-unreserved n h = ground arith

-- A byte that is encoded does not stand in an encoded text.
pub percent_encode-Lacks :
    (d : ℕ) (s : Bytes)
    → is_unreserved d ≡ false
    → d ≢ b'%'
    → IsBytes s
    → Lacks d (percent_encode s)
unfolding percent_encode
percent_encode-Lacks d [] reserved other h = tt
percent_encode-Lacks d (c ∷ s) reserved other (hc, h) = elim (Bool-cases (is_unreserved c)) [
  | inl e ↦ rw e ((λ same. cc (same, e, reserved)), percent_encode-Lacks d s reserved other h)
  | inr e ↦
      let high = upper_hex-unreserved (c / 16) (omega (arith, hc)) in
      let low = upper_hex-unreserved (c % 16) (omega arith) in
      rw e (
        (λ same. other (sym same)),
        (
          (λ same. cc (same, high, reserved)),
          ((λ same. cc (same, low, reserved)), percent_encode-Lacks d s reserved other h),
        ),
      )
]

-- A pair as it stands in a query string, and the whole string.
abbrev pub pair_text : Bytes × Bytes → Bytes
pair_text (key, value) = percent_encode key ++ (b'=' ∷ percent_encode value)

abbrev pub print_query : List (Bytes × Bytes) → Bytes
print_query pairs = joined_by b'&' (map pair_text pairs)

abbrev pub IsPair : Bytes × Bytes → Type 0
IsPair (key, value) = IsBytes key × IsBytes value

find_equals :
    (key rest : Bytes)
    → IsBytes key
    → find (percent_encode key ++ (b'=' ∷ rest)) (b'=' ∷ []) 0 ≡ some (length (percent_encode key))
unfolding is_unreserved
find_equals key rest h =
    find_zero (percent_encode key ++ (b'=' ∷ rest)) (b'=' ∷ [])
    ∙ find_at-skip b'=' [] (percent_encode key) (b'=' ∷ rest) 0
        (percent_encode-Lacks b'=' key refl (λ e. absurd (omega (arith, e))) h)
    ∙ find_at-append (b'=' ∷ []) rest (0 + length (percent_encode key))
    ∙ ap some (omega arith)

add_pair-put :
    (key value : Bytes) (result : List (Bytes × Bytes))
    → IsPair (key, value)
    → add_pair result (pair_text (key, value)) ≡ put key value result
unfolding add_pair
add_pair-put key value result (hk, hv) = rw (
  find_equals key (percent_encode value) hk,
  add_pair,
  take-append (percent_encode key) (b'=' ∷ percent_encode value),
  drop_behind (percent_encode key) b'=' (percent_encode value),
  url_decode-percent_encode key hk,
  url_decode-percent_encode value hv,
)

add_pairs-put_all :
    (pairs result : List (Bytes × Bytes))
    → All IsPair pairs
    → add_pairs result (map pair_text pairs) ≡ put_all result pairs
unfolding add_pairs
add_pairs-put_all [] result h = refl
add_pairs-put_all ((key, value) ∷ pairs) result (hp, h) =
    ap (λ m. add_pairs m (map pair_text pairs)) (add_pair-put key value result hp)
    ∙ add_pairs-put_all pairs (put key value result) h

pair_texts-Lacks :
    (pairs : List (Bytes × Bytes)) → All IsPair pairs → All (Lacks b'&') (map pair_text pairs)
unfolding is_unreserved
pair_texts-Lacks [] h = tt
pair_texts-Lacks ((key, value) ∷ pairs) ((hk, hv), h) = (
  All-append (λ c. c ≢ b'&') (percent_encode key) (b'=' ∷ percent_encode value)
      (percent_encode-Lacks b'&' key refl (λ e. absurd (omega (arith, e))) hk)
      (
        (λ e. absurd (omega (arith, e))),
        percent_encode-Lacks b'&' value refl (λ e. absurd (omega (arith, e))) hv,
      ),
  pair_texts-Lacks pairs h,
)

pair_texts-EndsFull : (pairs : List (Bytes × Bytes)) → EndsFull (map pair_text pairs)
pair_texts-EndsFull [] = tt
pair_texts-EndsFull ((key, value) ∷ []) =
    is_empty-append (percent_encode key) b'=' (percent_encode value)
pair_texts-EndsFull (_ ∷ next ∷ pairs) = pair_texts-EndsFull (next ∷ pairs)

-- Pairs of texts of bytes below 256 with different keys are read back, in their order, from the
-- query string that holds them percent-encoded, with '=' within a pair and '&' between two.
pub parse_query-print_query :
    (pairs : List (Bytes × Bytes))
    → All IsPair pairs
    → HasDistinctKeys pairs
    → parse_query (print_query pairs) ≡ pairs
unfolding parse_query
parse_query-print_query pairs h distinct =
    ap (add_pairs []) (
      split-joined_by b'&' (map pair_text pairs) (pair_texts-Lacks pairs h)
        (pair_texts-EndsFull pairs))
    ∙ add_pairs-put_all pairs [] h
    ∙ put_all-new pairs distinct
