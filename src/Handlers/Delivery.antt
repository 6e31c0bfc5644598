-- ===== src/Handlers/Delivery.antt =====
-- A fragment that is posted is delivered to those who ask for its chat.
use mathlib.Core.List.{Mem, mem-cons_self, mem-cons_of_mem, mem-map_of_mem}
use mathlib.Core.List.Perm
use frag.Prelude.{
  ◌≤◌, ◌≡◌, ◌≢◌, refl, ap, ◌∙◌, Bool, true, false, inl, inr, List, [], ◌∷◌, ◌++◌, some, arith, map,
  append-nil, length, Bool-cases, ◌==◌,
}
use frag.Prelude.Int.{ℤ, ltb_ℤ}
use frag.Text.{Bytes, codes, c_str}
use frag.Text.Laws.{same_refl}
use frag.Dictionary.{get}
use frag.Http.{HttpRequest, ok}
use frag.Fragment.{Fragment}
use frag.Json.Build.{fragments_array}
use frag.Database.Sqlite.{Sqlite}
use frag.Database.Operations.{Result, get_fragments}
use frag.Database.Table.{keep, has_id, in_chat, stored}
use frag.Database.Behaviour.{IsReliable, SqliteLaws}
use frag.Database.Refines.Select.{get_fragments-Returns}
use frag.Handlers.{
  AppContext, World, is_authorized, since_of, present, list_response, fragment_of_body,
  post_fragment_handler, get_fragments_handler,
}
use frag.Handlers.Body.{IsSendable, client_body, fragment_of_body_raw}
use frag.Handlers.Laws.{
  IsComplete, refused, too_large, malformed, stores, duplicate, fails,
  post_fragment_handler-PostOutcome,
}

c_str_again : (s : Bytes) → c_str (c_str s) ≡ c_str s
unfolding c_str
c_str_again [] = refl
c_str_again (c ∷ s) = elim (Bool-cases (c == 0)) [
  | inl nul ↦ rw nul
  | inr byte ↦ rw byte (rw (byte, c_str_again s))
]

stored_again : (f : Fragment) → stored (stored f) ≡ stored f
unfolding stored
stored_again f = rw (
  c_str_again f.id,
  c_str_again f.message_id,
  c_str_again f.chat_id,
  c_str_again f.sender_hash,
  c_str_again f.payload,
)

Mem-keep :
    (f : Fragment) (test : Fragment → Bool) (rows : List Fragment)
    → test f ≡ true
    → Mem f (keep test (rows ++ (f ∷ [])))
unfolding keep
Mem-keep f test [] e = rw e mem-cons_self
Mem-keep f test (g ∷ rows) e = elim (Bool-cases (test g)) [
  | inl passes ↦ rw passes (mem-cons_of_mem g (Mem-keep f test rows e))
  | inr dropped ↦ rw dropped (Mem-keep f test rows e)
]

module _ (sqlite : Sqlite) (laws : SqliteLaws sqlite) (reliable : IsReliable sqlite) where
  open sqlite use {Conn}
  open laws use {rows}

  -- The query gives all rows of the chat.
  get_all :
      (chat_id : Bytes) (since : ℤ) (c : Conn) (row : Fragment)
      → Mem row (keep (in_chat (c_str chat_id) since) (rows c))
      → (fs : List Fragment) × ((get_fragments sqlite chat_id since c).0 ≡ Result.ok fs)
        × Mem (stored row) fs
  get_all chat_id since c row there = elim (get_fragments-Returns sqlite laws chat_id since c).0 [
    | inl (_, _, failed) ↦ absurd (reliable.prepares _ c failed)
    | inr (found, (fs, e, (rest, splits, ends)), perm, sorted) ↦ elim ends [
      | inr (last, (at_last, _, failed)) ↦ absurd (reliable.steps last at_last failed)
      | inl all ↦
          let in_found : Mem row found = (Perm.mem_iff perm).1 there in
          let in_map : Mem (stored row) (map stored found) = mem-map_of_mem stored in_found in
          let same_list : map stored found ≡ fs = splits ∙ ap (λ l. fs ++ l) all ∙ append-nil fs in
          (fs, e, rw same_list at in_map)
    ]
  ]

  module _ (ctx : AppContext) (f : Fragment) (sendable : IsSendable f)
      (complete : IsComplete f) where
    -- A request that posts the fragment and may do so.
    pub record Posts (req : HttpRequest) (w : World Conn) : Type 0 where
      pub body : req.body ≡ client_body f
      pub authorized : is_authorized req ctx.auth ≡ true
      pub fits : length req.body ≤ ctx.max_payload_bytes
      pub is_new : has_id (stored f).id (rows w.db) ≡ false

    abbrev pub dated : World Conn → Fragment
    dated w = record f { timestamp = w.clock }

    body_full : (req : HttpRequest) {w : World Conn} → Posts req w → req.body ≢ []
    body_full req posts empty = cc (posts.body, empty)

    post_stores :
        (req : HttpRequest) (w : World Conn)
        → Posts req w
        → ((post_fragment_handler sqlite ctx req w).0.status_code ≡ 201)
          × (rows (post_fragment_handler sqlite ctx req w).1.db
              ≡ rows w.db ++ (stored (dated w) ∷ []))
    unfolding stored
    post_stores req w posts =
        let read : fragment_of_body req.body w.clock ≡ dated w =
          ap (λ b. fragment_of_body b w.clock) posts.body
          ∙ fragment_of_body_raw f sendable w.clock in
        let outcome = rw read at (post_fragment_handler-PostOutcome sqlite laws ctx req w) in
        elim outcome [
          | refused no_token _ ↦ cc (no_token, posts.authorized)
          | too_large _ large _ ↦ absurd (omega (arith, large, posts.fits))
          | malformed _ (inl empty) _ _ ↦ absurd (body_full req posts empty)
          | malformed _ (inr lacks) _ _ ↦ absurd (lacks complete)
          | stores _ status _ after ↦ (status, after)
          | duplicate _ _ known _ ↦ cc (known, posts.is_new)
          | fails _ _ _ failed ↦ elim failed [
            | inl bad ↦ absurd (reliable.prepares _ _ bad)
            | inr bad ↦ absurd (reliable.steps _ _ bad)
          ]
        ]

    list_shows :
        (req : HttpRequest) (w : World Conn) (row : Fragment)
        → is_authorized req ctx.auth ≡ true
        → present (get (codes "chat_id") req.query_params) ≡ some f.chat_id
        → Mem row (
            keep
              (in_chat
                (c_str f.chat_id)
                (since_of (present (get (codes "since") req.query_params))))
              (rows w.db))
        → (fs : List Fragment) × ((get_fragments_handler sqlite ctx req w).0 ≡ list_response fs)
          × Mem (stored row) fs
    unfolding get_fragments_handler
    list_shows req w row allowed chat there =
        let (fs, e, listed) = get_all f.chat_id _ w.db row there in
        (fs, rw (allowed, chat, e) refl, listed)

    -- A fragment that is posted is in the list that the next request for its chat gets.
    pub post_then_list :
        (req next : HttpRequest) (w : World Conn)
        → Posts req w
        → is_authorized next ctx.auth ≡ true
        → present (get (codes "chat_id") next.query_params) ≡ some f.chat_id
        → ltb_ℤ (since_of (present (get (codes "since") next.query_params))) w.clock ≡ true
        → ((post_fragment_handler sqlite ctx req w).0.status_code ≡ 201)
          × ((fs : List Fragment) × ((get_fragments_handler sqlite ctx next
                  (post_fragment_handler sqlite ctx req w).1).0
                ≡ ok (fragments_array fs))
              × Mem (stored (dated w)) fs)
    post_then_list req next w posts allowed chat later =
        let (status, after) = post_stores req w posts in
        let row = stored (dated w) in
        let passes : in_chat (c_str f.chat_id)
              (since_of (present (get (codes "since") next.query_params))) row
            ≡ true =
          unfold in_chat in unfold stored in rw (same_refl (c_str f.chat_id), later) refl in
        let (fs, e, listed) =
          list_shows next (post_fragment_handler sqlite ctx req w).1 row allowed chat
            (rw after (Mem-keep row _ (rows w.db) passes)) in
        (status, (fs, e, rw (stored_again (dated w)) at listed))
