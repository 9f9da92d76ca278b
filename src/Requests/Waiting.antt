-- ===== src/Requests/Waiting.antt =====
-- praxis2/src/requests.c keeps a queue of waiting requests for each hash id.
use rn.Prelude.{
  ℕ, ◌≡◌, ◌≢◌, refl, sym, ap, ◌∙◌, List, [], ◌∷◌, ◌++◌, Option, none, some, some, ok, Readable,
  Option-cases, inl, inr,
}
use mathlib.Core.Logic.{ite, if_pos, if_neg}
use native.Mathlib.Decide.{ℕ_discrete}
use rn.Packet.{Packet}
use rn.Packet.Copy.{copy_of, packet_dup_lem}
use rn.Uthash.{Uthash}
use rn.Requests.{
  Request, Rtable, rtable_key, link_last, add_found, add_request, requests_of, get_requests,
  clear_found, clear_requests,
}

link_last_lem : (rs : List Request) (r : Request) → rs ≢ [] → link_last rs r ≡ ok (rs ++ (r ∷ []))
unfolding link_last
link_last_lem [] r ne = absurd (ne refl)
link_last_lem (re ∷ []) r ne = refl
link_last_lem (re ∷ next ∷ more) r ne = rw (link_last_lem (next ∷ more) r (λ e. cc)) refl

module _ (ut : Uthash rtable_key) where
  open ut use {Table, hash_find, hash_add, hash_del, hash_write}

  -- No entry stands in the table with no request in it.
  abbrev pub NoneEmpty : Table → Type 0
  NoneEmpty t = (k : ℕ) (e : Rtable) → hash_find t k ≡ some e → e.open_requests ≢ []

  -- After add_request the new request is the last under its hash id, every other id has the
  -- requests that it had, and the table is fit for the next call.
  pub record Added (t : Table) (hash_id : ℕ) (r : Request) (after : Table) : Type 0 where
    pub queued :
        (k : ℕ)
        → get_requests ut after k
          ≡ ite (ℕ_discrete k hash_id) (get_requests ut t k ++ (r ∷ [])) (get_requests ut t k)
    pub none_empty : NoneEmpty after

  -- Of two items under one key, as a lookup of it finds them.
  same_requests :
      (o : Option Rtable) {e f : Rtable}
      → o ≡ some e
      → o ≡ some f
      → e.open_requests ≡ f.open_requests
  same_requests o p q = cc

  first_of_id :
      (t : Table) (hash_id : ℕ) (r : Request)
      → NoneEmpty t
      → hash_find t hash_id ≡ none
      → Added t hash_id r (hash_add t (record { hash_id = hash_id; open_requests = r ∷ [] }))
  unfolding get_requests
  first_of_id t hash_id r inv missing = record {
    queued = λ k. elim (ℕ_discrete k hash_id) [
      | yes e ↦ rw (if_pos _ e, e, missing, ut.find-add_self t entry missing) refl
      | no ne ↦ rw (if_neg _ ne, ut.find-add_ne t entry k missing ne) refl
    ];
    none_empty = λ k e found. elim (ℕ_discrete k hash_id) [
      | yes q ↦ λ emp. cc (
          same_requests (hash_find (hash_add t entry) hash_id) (rw q at found)
            (ut.find-add_self t entry missing))
      | no ne ↦ inv k e (rw (ut.find-add_ne t entry k missing ne) at found)
    ];
  }
    where
      entry : Rtable
      entry = record { hash_id = hash_id; open_requests = r ∷ [] }

  append-ne-nil : (rs : List Request) (r : Request) → rs ++ (r ∷ []) ≢ []
  append-ne-nil [] r e = cc
  append-ne-nil (x ∷ xs) r e = cc

  another_of_id :
      (t : Table) (hash_id : ℕ) (r : Request) (old : Rtable)
      → NoneEmpty t
      → hash_find t hash_id ≡ some old
      → Added t hash_id r
          (hash_write t old (record old { open_requests = old.open_requests ++ (r ∷ []) }))
  unfolding get_requests
  another_of_id t hash_id r old inv found = record {
    queued = λ k. elim (ℕ_discrete k hash_id) [
      | yes e ↦ rw (if_pos _ e, e, found, written) refl
      | no ne ↦ rw (if_neg _ ne, elsewhere k ne) refl
    ];
    none_empty = λ k e sought. elim (ℕ_discrete k hash_id) [
      | yes q ↦ λ emp.
          append-ne-nil old.open_requests r
            (sym (same_requests (hash_find after hash_id) (rw q at sought) written) ∙ emp)
      | no ne ↦ inv k e (rw (elsewhere k ne) at sought)
    ];
  }
    where
      new : Rtable
      new = record old { open_requests = old.open_requests ++ (r ∷ []) }

      after : Table
      after = hash_write t old new

      key : old.hash_id ≡ hash_id
      key = ut.find_key t hash_id old found

      at_key : hash_find t old.hash_id ≡ some old
      at_key = ap (hash_find t) key ∙ found

      written : hash_find after hash_id ≡ some new
      written = ap (hash_find after) (sym key) ∙ ut.find-write_self t old new at_key refl

      elsewhere : (k : ℕ) → k ≢ hash_id → hash_find after k ≡ hash_find t k
      elsewhere k ne = ut.find-write_ne t old new k at_key refl (λ q. ne (q ∙ key))

  -- add_request of a packet whose bytes can be read never faults: it queues a copy of the packet,
  -- with the socket of its client, behind the requests that wait for the same hash id.
  pub add_request_lem :
      (t : Table) (hash_id : ℕ) (socket : Option ℕ) (p : Packet)
      → NoneEmpty t
      → Readable p.key p.key_len
      → Readable p.value p.value_len
      → (after : Table) × (add_request ut t hash_id socket p ≡ ok after)
        × Added t hash_id (record { packet = copy_of p; socket = socket }) after
  unfolding add_request add_found
  add_request_lem t hash_id socket p inv hk hv = elim (Option-cases (hash_find t hash_id)) [
    | inl missing ↦ (
      _,
      rw (packet_dup_lem p hk hv, missing, add_found) refl,
      first_of_id t hash_id r inv missing,
    )
    | inr (old, found) ↦ (
      _,
      rw
          (
            packet_dup_lem p hk hv,
            found,
            add_found,
            link_last_lem old.open_requests r (inv hash_id old found),
          )
          refl,
      another_of_id t hash_id r old inv found,
    )
  ]
    where
      r : Request
      r = record { packet = copy_of p; socket = socket }

  -- clear_requests leaves no request under its hash id and every other id as it was.
  pub clear_requests_lem :
      (t : Table) (hash_id k : ℕ)
      → get_requests ut (clear_requests ut t hash_id) k
        ≡ ite (ℕ_discrete k hash_id) [] (get_requests ut t k)
  unfolding get_requests clear_requests
  clear_requests_lem t hash_id k = elim (Option-cases (hash_find t hash_id)) [
    | inl missing ↦ rw (missing, clear_found) (nothing missing (ℕ_discrete k hash_id))
    | inr (old, found) ↦
        let key : old.hash_id ≡ hash_id = ut.find_key t hash_id old found in
        let at_key : hash_find t old.hash_id ≡ some old = ap (hash_find t) key ∙ found in
        rw (found, clear_found)
          (elim (ℕ_discrete k hash_id) [
            | yes e ↦ rw (if_pos _ e) (
                ap (requests_of ut)
                  (ap (hash_find (hash_del t old)) (e ∙ sym key) ∙ ut.find-del_self t old at_key))
            | no ne ↦
                rw (if_neg _ ne)
                  (ap (requests_of ut) (ut.find-del_ne t old k at_key (λ q. ne (q ∙ key))))
          ])
  ]
    where
      nothing :
          hash_find t hash_id ≡ none
          → (d : Dec (k ≡ hash_id))
          → requests_of ut (hash_find t k) ≡ ite d [] (requests_of ut (hash_find t k))
      nothing missing (yes e) = ap (requests_of ut) (ap (hash_find t) e ∙ missing)
      nothing missing (no ne) = refl
