-- ===== src/Client/Upload/Sent.antt =====
-- After an upload without an error the coordinator has the sources.
use distcompile.Prelude.{
  ℕ, Option, ◌≡◌, refl, sym, ap, subst, ◌∙◌, ◌⊎◌, inl, inr, Bool, true, List, [], ◌∷◌, map, Text,
  arith, ltb, Bool-cases, text_eq, text_eq→≡, is_among, All, ok, ok-injective, >>=-eq-ok,
}
use distcompile.Cas.{Files, has, put_blobs, find_missing}
use distcompile.Cas.Store.{IsDigest}
use distcompile.Cas.Kept.{Stored, Stored-put_blobs, put_blobs-stores}
use distcompile.Rpc.{is_success, with_retry}
use distcompile.Rpc.Delivery.{with_retry-keeps, with_retry-last}
use distcompile.Worker.{default_attempts}
use distcompile.Preprocess.{ProcResult}
use distcompile.Client.{TransUnit}
use distcompile.Client.Upload.Among.{
  List-cases, among-All, among-left, among-last, among-erase, among-tail, among-find_missing,
  All-among, All-needed,
}
use distcompile.Client.Upload.{
  Stub, erase, batch_limit, Sending, needed, load_text, upload_missing, flush, add_blob, send_unit,
  send_units, send_sources,
}

-- The coordinator behind the stub, over a network that may lose a request or its reply: `files_of` is
-- its blob store. FindMissing changes nothing, and a successful reply is that of the handler; a call of
-- PutBlobs does nothing or what the handler does, and the latter with the handler's status where it
-- is answered with success.
pub record IsServed {ℓ} {Net : Type ℓ} (sha256 : Text → Text) (writes : Text → Bool) (root : Text)
    (stub : Stub Net) (files_of : Net → Files) : Type ℓ where
  pub asked :
      (want : List Text) (w : Net × List Text)
      → files_of (stub.find_missing want w).1.0 ≡ files_of w.0
  pub told :
      (want : List Text) (w : Net × List Text)
      → is_success (stub.find_missing want w).0.code ≡ true
      → (stub.find_missing want w).1.1 ≡ find_missing root (files_of w.0) want
  pub arrives :
      (blobs : List (Text × Text)) (w : Net)
      → files_of (stub.put_blobs blobs w).1 ≡ files_of w
        ⊎ (files_of (stub.put_blobs blobs w).1
            ≡ (put_blobs sha256 writes root blobs (files_of w)).1)
  pub answered :
      (blobs : List (Text × Text)) (w : Net)
      → is_success (stub.put_blobs blobs w).0.code ≡ true
      → ((put_blobs sha256 writes root blobs (files_of w)).0 ≡ true)
        × (files_of (stub.put_blobs blobs w).1
            ≡ (put_blobs sha256 writes root blobs (files_of w)).1)

module _ {ℓ} {Net : Type ℓ} (sha256 : Text → Text) (writes : Text → Bool) (root : Text)
    (stub : Stub Net) (files_of : Net → Files) (d : IsDigest sha256)
    (served : IsServed sha256 writes root stub files_of) where
  put-keeps :
      (blobs : List (Text × Text)) (k : Text) (w : Net)
      → Stored root (files_of w) k
      → Stored root (files_of (stub.put_blobs blobs w).1) k
  put-keeps blobs k w h = elim (served.arrives blobs w) [
    | inl lost ↦ subst (λ f. Stored root f k) (sym lost) h
    | inr done ↦
        subst (λ f. Stored root f k) (sym done)
          (Stored-put_blobs sha256 writes root blobs (files_of w) k h)
  ]

  put-Stored :
      (blobs : List (Text × Text)) (w : Net)
      → is_success (with_retry (stub.put_blobs blobs) default_attempts w).status.code ≡ true
      → All
          (λ b.
            Stored root (files_of (with_retry (stub.put_blobs blobs) default_attempts w).world) b.0)
          blobs
  put-Stored blobs w good =
      let (v, u, success, last) =
        with_retry-last (stub.put_blobs blobs) (λ v. Unit {0}) (λ v u. tt) default_attempts w
          (omega arith) good tt in
      let (all, at) = served.answered blobs v success in
      subst (λ f. All (λ b. Stored root f b.0) blobs) (sym (ap files_of last ∙ at))
        (put_blobs-stores sha256 writes root blobs (files_of v) d all)

  -- A digest that is stored, or stands in the batch.
  abbrev Held : Text → Sending Net → Type 0
  Held k s = Stored root (files_of s.net) k ⊎ (is_among k (map (λ b. b.0) s.batch) ≡ true)

  flush-Stored :
      (k : Text) (s t : Sending Net)
      → flush stub s ≡ ok t
      → Held k s
      → Stored root (files_of t.net) k
  unfolding flush
  flush-Stored k s t e h = elim (List-cases s.batch) [
    | inl none_left ↦
        let same : s ≡ t = ok-injective (rw (none_left, flush) at e) in
        subst (λ z. Stored root (files_of z.net) k) same
          (elim h [ inl stored ↦ stored | inr among ↦ absurd (cc (rw (none_left) at among)) ])
    | inr (b, bs, some_left) ↦
        let sent = with_retry (stub.put_blobs (b ∷ bs)) default_attempts s.net in
        elim (Bool-cases (is_success sent.status.code)) [
          | inr failed ↦ absurd (cc (rw (some_left, failed, flush) at e))
          | inl good ↦
              let done : sent.world ≡ t.net =
                ap (λ z. z.net) (ok-injective (rw (some_left, good, flush) at e)) in
              subst (λ w. Stored root (files_of w) k) done
                (elim h [
                  | inl stored ↦
                      with_retry-keeps (stub.put_blobs (b ∷ bs)) (λ w. Stored root (files_of w) k)
                        (put-keeps (b ∷ bs) k) default_attempts s.net (omega arith) stored
                  | inr among ↦
                      among-All (Stored root (files_of sent.world)) k (b ∷ bs)
                        (rw (some_left) at among) (put-Stored (b ∷ bs) s.net good)
                ])
        ]
  ]

  add_blob-Held :
      (k : Text) (u : TransUnit) (s : Sending Net)
      → Held k s ⊎ (k ≡ u.digest)
      → Held k (add_blob stub u s)
  unfolding add_blob
  add_blob-Held k u s (inl (inl stored)) = inl stored
  add_blob-Held k u s (inl (inr among)) = inr (among-left k s.batch ((u.digest, u.text) ∷ []) among)
  add_blob-Held k u s (inr same) = inr (rw same (among-last u.digest u.text s.batch))

  send_unit-Held :
      (k : Text) (u : TransUnit) (s t : Sending Net)
      → send_unit stub u s ≡ ok t
      → Held k s ⊎ (k ≡ u.digest)
      → Held k t
  unfolding send_unit
  send_unit-Held k u s t e h =
      let added = add_blob-Held k u s h in
      elim (Bool-cases (ltb batch_limit (add_blob stub u s).batch_bytes)) [
        | inl full ↦ inl (flush-Stored k (add_blob stub u s) t (rw (full, send_unit) at e) added)
        | inr room ↦ subst (Held k) (ok-injective (rw (room, send_unit) at e)) added
      ]

  -- What is held or still to be sent is stored in the end.
  send_units-Stored :
      (need : List TransUnit) (to_send : List Text) (s t : Sending Net)
      → send_units stub need to_send s ≡ ok t
      → (k : Text)
      → Held k s ⊎ ((is_among k to_send ≡ true) × (is_among k (map (λ u. u.digest) need) ≡ true))
      → Stored root (files_of t.net) k
  unfolding send_units
  send_units-Stored [] to_send s t e k (inl held) = flush-Stored k s t e held
  send_units-Stored [] to_send s t e k (inr (wanted, among)) = absurd (cc)
  send_units-Stored (u ∷ need) to_send s t e k h = elim (Bool-cases (is_among u.digest to_send)) [
    | inr other ↦ send_units-Stored need to_send s t (rw (other) at e) k (elim h [
      | inl held ↦ inl held
      | inr (wanted, among) ↦ inr (wanted, among-tail k u.digest need to_send other wanted among)
    ])
    | inl here ↦
        let (v, sent, rest) =
          >>=-eq-ok (send_unit stub u s) (send_units stub need (erase u.digest to_send))
            (rw (here) at e) in
        send_units-Stored need (erase u.digest to_send) v t rest k (elim h [
          | inl held ↦ inl (send_unit-Held k u s v sent (inl held))
          | inr (wanted, among) ↦ elim (Bool-cases (text_eq k u.digest)) [
            | inl same ↦ inl (send_unit-Held k u s v sent (inr (text_eq→≡ k u.digest same)))
            | inr apart ↦ inr (among-erase k u.digest to_send apart wanted, rw (apart) at among)
          ]
        ])
  ]

  send_sources-Stored :
      (need : List TransUnit) (net net' : Net)
      → send_sources stub need net ≡ ok net'
      → All (λ u. Stored root (files_of net') u.digest) need
  unfolding send_sources
  send_sources-Stored need net net' e =
      let want = map (λ u. u.digest) need in
      let told = with_retry (stub.find_missing want) default_attempts (net, []) in
      let start : Sending Net = record { net = told.world.0; batch = []; batch_bytes = 0 } in
      elim (Bool-cases (is_success told.status.code)) [
        | inr failed ↦ absurd (cc (rw (failed, send_sources) at e))
        | inl good ↦
            let (t, sent, ended) =
              >>=-eq-ok (send_units stub need told.world.1 start) (λ s. ok s.net)
                (rw (good, send_sources) at e) in
            let (v, here, success, last) =
              with_retry-last (stub.find_missing want) (λ w. files_of w.0 ≡ files_of net)
                (λ w h. served.asked want w ∙ h) default_attempts (net, []) (omega arith) good
                refl in
            let missing : told.world.1 ≡ find_missing root (files_of net) want =
              ap (λ w. w.1) last
              ∙ served.told want v success
              ∙ ap (λ f. find_missing root f want) here in
            let same : files_of told.world.0 ≡ files_of net =
              ap (λ w. files_of w.0) last ∙ served.asked want v ∙ here in
            subst (λ n. All (λ u. Stored root (files_of n) u.digest) need) (ok-injective ended)
              (All-among (Stored root (files_of t.net)) need (λ k among.
                send_units-Stored need told.world.1 start t sent k
                  (elim (Bool-cases (has root (files_of net) k)) [
                    | inl there ↦ inl (inl (subst (λ f. Stored root f k) (sym same) (inr there)))
                    | inr gone ↦ inr (
                      ap (is_among k) missing
                          ∙ among-find_missing root (files_of net) k want gone among,
                      among,
                    )
                  ])))
      ]

  -- After an upload that ends without an error, over a network that may lose requests and replies, and
  -- to a coordinator that answers FindMissing and PutBlobs from one blob store, where SHA-256 gives 32
  -- bytes: of each unit either the key is among the hits of the cache, or the blob store has a file
  -- for the digest that the unit has once its text is loaded, unless that digest is empty.
  pub upload_missing-Stored :
      (run : List Text → ProcResult) (stat_of : Text → Option (ℕ × ℕ)) (dir : Text)
      (cached : List Text) (units : List TransUnit) (net net' : Net)
      → upload_missing stub sha256 run stat_of dir cached units net ≡ ok net'
      → All
          (λ u.
            (is_among u.key cached ≡ true)
            ⊎ Stored root (files_of net') (load_text sha256 run stat_of dir u).digest)
          units
  unfolding upload_missing
  upload_missing-Stored run stat_of dir cached units net net' e =
      All-needed (λ u. Stored root (files_of net') u.digest) (load_text sha256 run stat_of dir)
        cached units
        (send_sources-Stored (map (load_text sha256 run stat_of dir) (needed cached units)) net net'
          e)
