-- ===== src/Client/Upload.antt =====
-- dcc.cpp, step 3 of `build`: the preprocessed sources that the coordinator needs and does not have. The
-- calls of the stub are parameters that act on a state of the network and the coordinator; what
-- is counted for the report is left out.
pub mod Among
pub mod Sent
use distcompile.Prelude.{
  ℕ, Option, ◌+◌, ◌*◌, Bool, true, false, List, [], ◌∷◌, ◌++◌, map, Text, codes, ltb, if◌then◌else◌,
  length, text_eq, is_among, Result, ok, err, ◌>>=◌,
}
use distcompile.Preprocess.{ProcResult}
use distcompile.Rpc.{Status, is_success, with_retry}
use distcompile.Worker.{default_attempts}
use distcompile.Client.{TransUnit, run_preprocess}

-- `FindMissing` acts on the message of the reply too.
pub record Stub {ℓ} (Net : Type ℓ) : Type ℓ where
  pub find_missing : List Text → Net × List Text → Status × (Net × List Text)
  pub put_blobs : List (Text × Text) → Net → Status × Net

-- The units at the indexes `need`, in their order.
unfoldable pub needed : List Text → List TransUnit → List TransUnit
needed cached [] = []
needed cached (u ∷ units) =
    let rest = needed cached units in if is_among u.key cached then rest else u ∷ rest

-- The body of the parallel loop: a key that was reused came without the text.
unfoldable pub load_text :
    (Text → Text)
    → (List Text → ProcResult)
    → (Text → Option (ℕ × ℕ))
    → Text
    → TransUnit
    → TransUnit
unfolding run_preprocess
load_text sha256 run stat_of root u =
    if u.fresh then u else run_preprocess sha256 run stat_of root u

-- `to_send.erase(digest)` on a set that is kept as a list.
unfoldable pub erase : Text → List Text → List Text
erase k [] = []
erase k (j ∷ keys) = let rest = erase k keys in if text_eq k j then rest else j ∷ rest

-- `32 << 20`
abbrev pub batch_limit : ℕ
batch_limit = 32 * 1048576

-- What the loop changes.
pub record Sending {ℓ} (Net : Type ℓ) : Type ℓ where
  pub net : Net
  pub batch : List (Text × Text)
  pub batch_bytes : ℕ

module _ {ℓ} {Net : Type ℓ} (stub : Stub Net) where
  unfoldable pub flush : Sending Net → Result Text (Sending Net)
  flush s = elim s.batch [
    | [] ↦ ok s
    | b ∷ bs ↦
        let sent = with_retry (stub.put_blobs (b ∷ bs)) default_attempts s.net in
        if is_success sent.status.code
        then ok (record { net = sent.world; batch = []; batch_bytes = 0 })
        else err (codes "upload: " ++ sent.status.error_message)
  ]

  -- `batch.add_blobs()` and the count of its bytes.
  unfoldable pub add_blob : TransUnit → Sending Net → Sending Net
  add_blob u s = record s {
    batch = s.batch ++ (u.digest, u.text) ∷ [];
    batch_bytes = s.batch_bytes + length u.text;
  }

  -- The rest of the body, behind the `continue`.
  unfoldable pub send_unit : TransUnit → Sending Net → Result Text (Sending Net)
  unfolding flush add_blob
  send_unit u s =
      let s' = add_blob u s in if ltb batch_limit s'.batch_bytes then flush s' else ok s'

  -- The loop over `need`, with the set `to_send`, and the flush behind it.
  unfoldable pub send_units : List TransUnit → List Text → Sending Net → Result Text (Sending Net)
  unfolding send_unit erase
  send_units [] to_send s = flush s
  send_units (u ∷ need) to_send s =
      let skip = send_units need to_send s in
      let send = send_unit u s >>= send_units need (erase u.digest to_send) in
      if is_among u.digest to_send then send else skip

  -- From the call of FindMissing on; `need` are the units with their texts.
  unfoldable pub send_sources : List TransUnit → Net → Result Text Net
  unfolding send_units
  send_sources need net =
      let want = map (λ u. u.digest) need in
      let told = with_retry (stub.find_missing want) default_attempts (net, []) in
      let start : Sending Net = record { net = told.world.0; batch = []; batch_bytes = 0 } in
      if is_success told.status.code
      then send_units need told.world.1 start >>= (λ s. ok s.net)
      else err (codes "coordinator: " ++ told.status.error_message)

  -- Step 3 as a whole, with the keys that `CheckCache` answered with.
  unfoldable pub upload_missing :
      (Text → Text)
      → (List Text → ProcResult)
      → (Text → Option (ℕ × ℕ))
      → Text
      → List Text
      → List TransUnit
      → Net
      → Result Text Net
  unfolding needed load_text send_sources
  upload_missing sha256 run stat_of root cached units net =
      send_sources (map (load_text sha256 run stat_of root) (needed cached units)) net
