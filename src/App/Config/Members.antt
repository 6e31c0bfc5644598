-- ===== src/App/Config/Members.antt =====
-- The members of a written configuration (backend/src/main.cpp) in which the search for another key
-- finds nothing.
use frag.Prelude.{
  ℕ, ◌+◌, ◌≡◌, ◌≢◌, refl, true, inl, inr, List, [], ◌∷◌, ◌++◌, arith, All, All-append, append_assoc,
}
use frag.Prelude.Int.{ℤ, pos, negsuc}
use frag.Text.{Bytes, codes}
use frag.Text.Number.{is_digit, print_nat, print_int}
use frag.Text.Number.Digits.{print_nat-digits}
use frag.Utils.Split.Laws.{Lacks}
use frag.Json.Read.{quoted}
use frag.Json.Grammar.Fragments.{IsPlain}
use frag.App.Config.{Config}
use frag.App.Config.Tokens.Written.{token_list, more_tokens}
use frag.App.Config.Skips.{IsName, IsSeparator, Skips, Skips-append, Skips-bare, Skips-quoted}
use frag.App.Config.Written.{
  port_text, tokens_text, db_text, cors_text, cleanup_text, max_text, IsNoKey, IsWritable,
  IsPlain-IsToken,
}

digits-Lacks : (s : Bytes) → All (λ c. is_digit c ≡ true) s → Lacks b'"' s
unfolding is_digit
digits-Lacks [] h = tt
digits-Lacks (c ∷ s) (hc, h) = ((λ e. ground (arith, hc, e)), digits-Lacks s h)

pub print_nat-Lacks : (n : ℕ) → Lacks b'"' (print_nat n)
print_nat-Lacks n = digits-Lacks (print_nat n) (print_nat-digits n)

pub print_int-Lacks : (x : ℤ) → Lacks b'"' (print_int x)
unfolding print_int
print_int-Lacks (pos n) = print_nat-Lacks n
print_int-Lacks (negsuc n) = ((λ e. absurd (omega (arith, e))), print_nat-Lacks (n + 1))

-- A text begins with a separator.
abbrev BeginsApart : Bytes → Type 0
BeginsApart [] = ⊥
BeginsApart (c ∷ s) = IsSeparator c

module _ (key : Bytes) (name : IsName key) where
  quoted-Skips :
      (v s : Bytes)
      → Lacks b'"' v
      → v ≢ key
      → BeginsApart s
      → Skips key s
      → Skips key (quoted v ++ s)
  quoted-Skips v [] plain ne apart h = absurd apart
  quoted-Skips v (c ∷ s) plain ne apart h = Skips-quoted key name v c s plain ne apart h

  -- A member with a number, and one with a text.
  pub number-Skips :
      (k raw : Bytes) (last : ℕ)
      → Lacks b'"' k
      → k ≢ key
      → Lacks b'"' raw
      → last ≢ b'"'
      → Skips key (quoted k ++ (b':' ∷ (raw ++ (last ∷ []))))
  number-Skips k raw last plain ne h end =
      quoted-Skips k (b':' ∷ (raw ++ (last ∷ []))) plain ne (inl refl) (
        Skips-bare key name (b':' ∷ (raw ++ (last ∷ []))) (
          (λ e. absurd (omega (arith, e))),
          All-append (λ c. c ≢ b'"') raw (last ∷ []) h (end, tt),
        ))

  pub text-Skips :
      (k v : Bytes)
      → Lacks b'"' k
      → k ≢ key
      → Lacks b'"' v
      → v ≢ key
      → Skips key (quoted k ++ (b':' ∷ (quoted v ++ (b',' ∷ []))))
  text-Skips k v plain ne h other =
      quoted-Skips k (b':' ∷ (quoted v ++ (b',' ∷ []))) plain ne (inl refl) (
        Skips-append key name (b':' ∷ []) (quoted v ++ (b',' ∷ []))
          (Skips-bare key name (b':' ∷ []) (ground arith))
          (quoted-Skips v (b',' ∷ []) h other (inr (inl refl))
            (Skips-bare key name (b',' ∷ []) (ground arith))))

  more_apart : (ts : List Bytes) (s : Bytes) → BeginsApart (more_tokens ts ++ (b']' ∷ s))
  more_apart [] s = inr (inr refl)
  more_apart (t ∷ ts) s = inr (inl refl)

  more-Skips :
      (ts : List Bytes) (s : Bytes)
      → All (λ t. Lacks b'"' t × (t ≢ key)) ts
      → Skips key (b']' ∷ s)
      → Skips key (more_tokens ts ++ (b']' ∷ s))
  more-Skips [] s h last = last
  more-Skips (t ∷ ts) s ((plain, ne), h) last =
      rw (append_assoc (quoted t) (more_tokens ts) (b']' ∷ s)) (
        Skips-append key name (b',' ∷ []) (quoted t ++ (more_tokens ts ++ (b']' ∷ s)))
          (Skips-bare key name (b',' ∷ []) (ground arith))
          (quoted-Skips t (more_tokens ts ++ (b']' ∷ s)) plain ne (more_apart ts s)
            (more-Skips ts s h last)))

  pub token_list-Skips :
      (ts : List Bytes) (s : Bytes)
      → All (λ t. Lacks b'"' t × (t ≢ key)) ts
      → Skips key (b']' ∷ s)
      → Skips key (token_list ts ++ (b']' ∷ s))
  token_list-Skips [] s h last = last
  token_list-Skips (t ∷ ts) s ((plain, ne), h) last =
      rw (append_assoc (quoted t) (more_tokens ts) (b']' ∷ s)) (
        quoted-Skips t (more_tokens ts ++ (b']' ∷ s)) plain ne (more_apart ts s)
          (more-Skips ts s h last))

  module _ (c : Config) (h : IsWritable c) (other : (v : Bytes) → IsNoKey v → v ≢ key) where
    pub port-Skips : codes "port" ≢ key → Skips key (port_text c)
    port-Skips ne =
        Skips-append key name (b'{' ∷ []) (codes "\"port\":" ++ (print_int c.port ++ codes ","))
          (Skips-bare key name (b'{' ∷ []) (ground arith))
          (number-Skips (codes "port") (print_int c.port) b',' (ground arith) ne
            (print_int-Lacks c.port) (ground arith))

    plain_tokens :
        (ts : List Bytes)
        → All (λ t. IsPlain t × Lacks b']' t × IsNoKey t) ts
        → All (λ t. Lacks b'"' t × (t ≢ key)) ts
    plain_tokens [] hs = tt
    plain_tokens (t ∷ ts) ((plain, _, no_key), hs) =
        (((IsPlain-IsToken t plain).0, other t no_key), plain_tokens ts hs)

    pub tokens-Skips : codes "tokens" ≢ key → Skips key (tokens_text c)
    tokens-Skips ne =
        quoted-Skips (codes "tokens") (b':' ∷ b'[' ∷ (token_list c.tokens ++ codes "],"))
          (ground arith) ne (inl refl)
          (Skips-append key name (b':' ∷ b'[' ∷ []) (token_list c.tokens ++ codes "],")
            (Skips-bare key name (b':' ∷ b'[' ∷ []) (ground arith))
            (token_list-Skips c.tokens (codes ",") (plain_tokens c.tokens h.tokens)
              (Skips-bare key name (codes "],") (ground arith))))

    pub db-Skips : codes "db_path" ≢ key → Skips key (db_text c)
    db-Skips ne =
        text-Skips (codes "db_path") c.db_path (ground arith) ne
          (IsPlain-IsToken c.db_path h.db_path.0).0 (other c.db_path h.db_path.1)

    pub cors-Skips : codes "cors_origin" ≢ key → Skips key (cors_text c)
    cors-Skips ne =
        text-Skips (codes "cors_origin") c.cors_origin (ground arith) ne
          (IsPlain-IsToken c.cors_origin h.cors_origin.0).0 (other c.cors_origin h.cors_origin.1)

    pub cleanup-Skips : codes "cleanup_interval_sec" ≢ key → Skips key (cleanup_text c)
    cleanup-Skips ne =
        number-Skips (codes "cleanup_interval_sec") (print_int c.cleanup_interval_sec) b','
          (ground arith) ne (print_int-Lacks c.cleanup_interval_sec) (ground arith)

    pub max-Skips : codes "max_payload_bytes" ≢ key → Skips key (max_text c)
    max-Skips ne =
        number-Skips (codes "max_payload_bytes") (print_nat c.max_payload_bytes) b',' (ground arith)
          ne (print_nat-Lacks c.max_payload_bytes) (ground arith)
