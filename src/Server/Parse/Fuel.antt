-- ===== src/Server/Parse/Fuel.antt =====
-- The header loop of `read_and_parse` (backend/src/server.cpp) with the rounds that `parse_request`
-- gives it, against the loop of the source, which has none to spare.
use frag.Prelude.{
  ℕ, zero, suc, ◌+◌, ◌-◌, ◌*◌, ◌≤◌, ◌<◌, ◌≡◌, ◌≢◌, inl, inr, List, arith, ltb, ◌==◌, ==_iff, length,
  none, some, Bool-cases, Option-cases,
}
use frag.Text.{Bytes, find, substr}
use frag.Text.Laws.{find_ge}
use frag.Http.{crlf}
use frag.Server.Parse.{add_header, header_loop}

-- The loop from the position `pos` ends by itself, with the headers `result`, after `rounds` lines.
pub data Ends (raw : Bytes) (result : List (Bytes × Bytes))
    : ℕ → ℕ → List (Bytes × Bytes) → Type 0 where
  -- `while (pos < raw.size())`.
  at_end : {pos : ℕ} → length raw ≤ pos → Ends raw result 0 pos result
  -- No line end follows: `break`.
  unfinished :
      {pos : ℕ} → pos < length raw → find raw crlf pos ≡ none → Ends raw result 0 pos result
  -- The empty line: `break`.
  at_blank :
      {pos : ℕ} → pos < length raw → find raw crlf pos ≡ some pos → Ends raw result 0 pos result
  -- A line, with or without a colon, and on behind its end.
  line :
      {rounds pos end : ℕ} {headers : List (Bytes × Bytes)}
      → pos < length raw
      → find raw crlf pos ≡ some end
      → end ≢ pos
      → Ends raw result rounds (end + 2) (add_header headers (substr raw pos (end - pos)))
      → Ends raw result (suc rounds) pos headers

-- From every position, with as many rounds as there are bytes behind it, the headers that are read
-- are those with which the loop of the source ends by itself: at the end of the text, where no line
-- end follows or at the empty line, after at most a third as many lines as there are bytes, rounded
-- up.
pub header_loop-Ends :
    (fuel : ℕ) (raw : Bytes) (pos : ℕ) (headers : List (Bytes × Bytes))
    → length raw ≤ pos + fuel
    → (rounds : ℕ) × (rounds * 3 ≤ length raw - pos + 2)
      × Ends raw (header_loop fuel raw pos headers) rounds pos headers
unfolding header_loop
header_loop-Ends zero raw pos headers h = (0, omega arith, at_end (omega arith))
header_loop-Ends (suc fuel) raw pos headers h = elim (Bool-cases (ltb pos (length raw))) [
  | inr over ↦ rw over (0, omega arith, at_end (ground arith))
  | inl inside ↦
      let within : pos < length raw = ground arith in
      elim (Option-cases (find raw crlf pos)) [
        | inl e ↦ rw (inside, e, header_loop) (0, omega arith, unfinished within e)
        | inr (end, e) ↦ elim (Bool-cases (end == pos)) [
          | inl blank ↦
              let same_pos : end ≡ pos = (==_iff end pos).0 blank in
              rw (inside, e, header_loop, blank)
                (0, omega arith, at_blank within (rw same_pos at e))
          | inr longer ↦
              let other : end ≢ pos = ground arith in
              let forward = find_ge raw crlf pos end e in
              let (rounds, bound, ends) =
                header_loop-Ends fuel raw (end + 2)
                  (add_header headers (substr raw pos (end - pos))) (omega arith) in
              rw (inside, e, header_loop, longer)
                (suc rounds, omega arith, line within e other ends)
        ]
      ]
]
