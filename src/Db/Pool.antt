-- ===== src/Db/Pool.antt =====
-- db.h and db.cpp: `Pool`. A connection is a value of the type `Conn`; `ok` is whether it is still
-- connected, and connecting again, which may fail, is a parameter. The vector `idle_` is a list with
-- its back first, and a lock held is one operation.
use distcompile.Prelude.{
  ℕ, ◌+◌, ◌≡◌, Bool, Option, none, some, List, [], ◌∷◌, arith, length, Bool-cases, inl, inr,
  if◌then◌else◌,
}

module _ {ℓ} {Conn : Type ℓ} (is_ok : Conn → Bool) where
  -- `Pool::get`: `none` is a caller that waits; a failed reconnection throws, which leaves nothing to
  -- give back.
  unfoldable pub pool_get : Option Conn → List Conn → Option (Option Conn × List Conn)
  pool_get reconnected [] = none
  pool_get reconnected (c ∷ idle) =
      if is_ok c then some (some c, idle) else some (reconnected, idle)

  unfoldable pub give_back : Conn → List Conn → List Conn
  give_back c idle = c ∷ idle

  -- Callers that borrow one after the other; `tries` holds what connecting again gives to each. The
  -- numbers of those that were thrown out and of those that wait, and the pool that is left.
  pub record Served : Type ℓ where
    pub thrown : ℕ
    pub blocked : ℕ
    pub idle : List Conn

  unfoldable pub serve : List (Option Conn) → List Conn → Served
  unfolding pool_get give_back
  serve [] idle = record { thrown = 0; blocked = 0; idle = idle }
  serve (try ∷ tries) idle = elim (pool_get try idle) [
    | none ↦ let rest = serve tries idle in record rest { blocked = rest.blocked + 1 }
    | some (none, left) ↦ let rest = serve tries left in record rest { thrown = rest.thrown + 1 }
    | some (some c, left) ↦ serve tries (give_back c left)
  ]

  -- A caller that is thrown out costs the pool a connection, and nothing else does: so many callers
  -- were thrown out as connections are missing.
  pub serve-length :
      (tries : List (Option Conn)) (idle : List Conn)
      → let out = serve tries idle in length out.idle + out.thrown ≡ length idle
  unfolding serve pool_get give_back
  serve-length [] idle = omega arith
  serve-length (try ∷ tries) [] = serve-length tries []
  serve-length (none ∷ tries) (c ∷ idle) = elim (Bool-cases (is_ok c)) [
    | inl live ↦ rw (live, serve, pool_get) (serve-length tries (c ∷ idle))
    | inr dead ↦ rw (dead, serve, pool_get) (omega (arith, serve-length tries idle))
  ]
  serve-length (some d ∷ tries) (c ∷ idle) = elim (Bool-cases (is_ok c)) [
    | inl live ↦ rw (live, serve, pool_get) (serve-length tries (c ∷ idle))
    | inr dead ↦ rw (dead, serve, pool_get) (serve-length tries (d ∷ idle))
  ]
