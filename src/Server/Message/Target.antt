-- ===== src/Server/Message/Target.antt =====
-- The request line as a client writes it, and what `read_and_parse` (backend/src/server.cpp) finds
-- in it.
use frag.Prelude.{
  ℕ, ◌+◌, ◌-◌, ◌≡◌, ◌≢◌, refl, sym, ap, ◌∙◌, false, List, [], ◌∷◌, ◌++◌, none, some, arith, All,
  All-append, append_assoc, append-nil, length, length-append, take-append, drop-append,
  drop_behind,
}
use frag.Text.{Bytes, find, find_at, starts_with}
use frag.Text.Laws.{find_zero, find-append, find_at-skip, find_at-append}
use frag.Dictionary.{HasDistinctKeys}
use frag.Utils.Split.Laws.{Lacks}
use frag.Utils.UrlDecode.RoundTrip.{is_unreserved, percent_encode}
use frag.Utils.UrlDecode.Paths.{
  encode_path, url_decode-encode_path, encode_path-Lacks, IsSpecial, specials,
}
use frag.Http.{empty_request}
use frag.Server.Query.RoundTrip.{
  IsBytes, IsPair, pair_text, print_query, percent_encode-Lacks, parse_query-print_query,
}
use frag.Server.Parse.{set_target, raw_target}

-- The query behind the path, if there is one.
abbrev pub query_part : List (Bytes × Bytes) → Bytes
query_part [] = []
query_part (pair ∷ pairs) = b'?' ∷ print_query (pair ∷ pairs)

abbrev pub target_text : Bytes → List (Bytes × Bytes) → Bytes
target_text path query = encode_path path ++ query_part query

-- A byte that no target holds.
abbrev IsOutside : ℕ → Type 0
IsOutside d =
    IsSpecial d × (is_unreserved d ≡ false) × (d ≢ b'%') × (d ≢ b'=') × (d ≢ b'&') × (d ≢ b'?')

pub space-IsOutside : IsOutside b' '
unfolding is_unreserved
space-IsOutside = (specials.0, refl, ground arith, ground arith, ground arith, ground arith)

pub line-IsOutside : IsOutside b'\r'
unfolding is_unreserved
line-IsOutside = (specials.2, refl, ground arith, ground arith, ground arith, ground arith)

pair_text-Lacks :
    (d : ℕ) (pair : Bytes × Bytes) → IsOutside d → IsPair pair → Lacks d (pair_text pair)
pair_text-Lacks d (key, value) (_, reserved, percent, equals, _, _) (hk, hv) =
    All-append (λ c. c ≢ d) (percent_encode key) (b'=' ∷ percent_encode value)
      (percent_encode-Lacks d key reserved percent hk)
      ((λ e. equals (sym e)), percent_encode-Lacks d value reserved percent hv)

print_query-Lacks :
    (d : ℕ) (pairs : List (Bytes × Bytes))
    → IsOutside d
    → All IsPair pairs
    → Lacks d (print_query pairs)
print_query-Lacks d [] out h = tt
print_query-Lacks d (pair ∷ []) out (hp, _) = pair_text-Lacks d pair out hp
print_query-Lacks d (pair ∷ next ∷ pairs) out (hp, h) =
    All-append (λ c. c ≢ d) (pair_text pair) (b'&' ∷ print_query (next ∷ pairs))
      (pair_text-Lacks d pair out hp)
      ((λ e. out.4 (sym e)), print_query-Lacks d (next ∷ pairs) out h)

query_part-Lacks :
    (d : ℕ) (pairs : List (Bytes × Bytes))
    → IsOutside d
    → All IsPair pairs
    → Lacks d (query_part pairs)
query_part-Lacks d [] out h = tt
query_part-Lacks d (pair ∷ pairs) out h =
    ((λ e. out.5 (sym e)), print_query-Lacks d (pair ∷ pairs) out h)

pub target_text-Lacks :
    (d : ℕ) (path : Bytes) (query : List (Bytes × Bytes))
    → IsOutside d
    → IsBytes path
    → All IsPair query
    → Lacks d (target_text path query)
target_text-Lacks d path query out hp hq =
    All-append (λ c. c ≢ d) (encode_path path) (query_part query)
      (encode_path-Lacks d path out.0 hp) (query_part-Lacks d query out hq)

find-none : (c : ℕ) (s : Bytes) → Lacks c s → find s (c ∷ []) 0 ≡ none
unfolding find_at starts_with
find-none c s h =
    find_zero s (c ∷ [])
    ∙ ap (λ t. find_at (c ∷ []) t 0) (sym (append-nil s))
    ∙ find_at-skip c [] s [] 0 h

-- The path and the query of a target.
pub set_target-target_text :
    (method path : Bytes) (query : List (Bytes × Bytes))
    → IsBytes path
    → All IsPair query
    → HasDistinctKeys query
    → set_target (record empty_request { method = method }) (target_text path query)
      ≡ record empty_request { method = method; path = path; query_params = query }
unfolding set_target
set_target-target_text method path [] hp hq distinct =
    let bare : set_target (record empty_request { method = method }) (encode_path path)
        ≡ record empty_request { method = method; path = path } =
      rw (
        find-none b'?' (encode_path path) (encode_path-Lacks b'?' path specials.1 hp),
        set_target,
        url_decode-encode_path path hp,
      ) in
    ap (set_target (record empty_request { method = method })) (append-nil (encode_path path))
    ∙ bare
set_target-target_text method path (pair ∷ pairs) hp hq distinct =
    let query = print_query (pair ∷ pairs) in
    let mark : find (encode_path path ++ (b'?' ∷ query)) (b'?' ∷ []) 0
        ≡ some (length (encode_path path)) =
      find_zero (encode_path path ++ (b'?' ∷ query)) (b'?' ∷ [])
      ∙ find_at-skip b'?' [] (encode_path path) (b'?' ∷ query) 0
          (encode_path-Lacks b'?' path specials.1 hp)
      ∙ find_at-append (b'?' ∷ []) query (0 + length (encode_path path))
      ∙ ap some (omega arith) in
    rw (
      mark,
      set_target,
      take-append (encode_path path) (b'?' ∷ query),
      drop_behind (encode_path path) b'?' query,
      url_decode-encode_path path hp,
      parse_query-print_query (pair ∷ pairs) hq distinct,
    )

-- What stands between the first two spaces of a request line.
pub raw_target-middle :
    (method target version : Bytes)
    → Lacks b' ' target
    → raw_target (method ++ (b' ' ∷ (target ++ (b' ' ∷ version)))) (length method + 1) ≡ target
unfolding raw_target
raw_target-middle method target version h =
    let front = method ++ (b' ' ∷ []) in
    let line : method ++ (b' ' ∷ (target ++ (b' ' ∷ version)))
        ≡ front ++ (target ++ (b' ' ∷ version)) =
      sym (append_assoc method (b' ' ∷ []) (target ++ (b' ' ∷ version))) in
    let place : length method + 1 ≡ length front =
      omega (arith, length-append method (b' ' ∷ [])) in
    let end : find (front ++ (target ++ (b' ' ∷ version))) (b' ' ∷ []) (length front)
        ≡ some (length front + length target) =
      find-append front (target ++ (b' ' ∷ version)) (b' ' ∷ [])
      ∙ find_at-skip b' ' [] target (b' ' ∷ version) (length front) h
      ∙ find_at-append (b' ' ∷ []) version (length front + length target) in
    let n : length front + length target - length front ≡ length target = omega arith in
    let found : raw_target (front ++ (target ++ (b' ' ∷ version))) (length front) ≡ target =
      rw (end, raw_target, n, drop-append front (target ++ (b' ' ∷ version)))
        (take-append target (b' ' ∷ version)) in
    rw (line, place) found
