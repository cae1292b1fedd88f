-- ===== src/Rpc/Delivery.antt =====
-- Calls over a network that may lose a request or its reply: what repeating them does to the tables
-- of the other side.
use distcompile.Prelude.{ℕ, zero, suc, ◌<◌, ◌≡◌, refl, sym, ap, subst, ◌∙◌, ◌⊎◌, inl, inr, true}
use distcompile.Rpc.{Status, is_success, with_retry}
use distcompile.Rpc.Retry.{after, with_retry-Retried}

after-last {ℓ} :
    {W : Type ℓ} (fn : W → Status × W) (n : ℕ) (w : W) → after fn (suc n) w ≡ (fn (after fn n w)).1
after-last fn zero w = refl
after-last fn (suc n) w = after-last fn n (fn w).1

-- What a call may do to the tables: nothing, when the request was lost, or what the handler does; and
-- the latter whenever it is answered with success.
pub record Delivers {ℓ κ} {W : Type ℓ} {S : Type κ} (handle : S → S) (tables : W → S)
    (fn : W → Status × W) : Type (ℓ ⊔ κ) where
  pub arrives : (w : W) → tables (fn w).1 ≡ tables w ⊎ (tables (fn w).1 ≡ handle (tables w))
  pub answered : (w : W) → is_success (fn w).0.code ≡ true → tables (fn w).1 ≡ handle (tables w)

module _ {ℓ κ} {W : Type ℓ} {S : Type κ} (handle : S → S) (tables : W → S) (fn : W → Status × W)
    (d : Delivers handle tables fn) where
  handled :
      (s : S)
      → handle (handle s) ≡ handle s
      → (w : W) → tables w ≡ s ⊎ (tables w ≡ handle s)
      → handle (tables w) ≡ handle s
  handled s again w (inl e) = ap handle e
  handled s again w (inr e) = ap handle e ∙ again

  after-once :
      (s : S)
      → handle (handle s) ≡ handle s
      → (n : ℕ) (w : W) → tables w ≡ s ⊎ (tables w ≡ handle s)
      → tables (after fn n w) ≡ s ⊎ (tables (after fn n w) ≡ handle s)
  after-once s again zero w h = h
  after-once s again (suc n) w h = after-once s again n (fn w).1 (elim (d.arrives w) [
    | inl lost ↦ elim h [ inl e ↦ inl (lost ∙ e) | inr e ↦ inr (lost ∙ e) ]
    | inr done ↦ inr (done ∙ handled s again w h)
  ])

  pub with_retry-once :
      (attempts : ℕ) (w : W)
      → 0 < attempts
      → handle (handle (tables w)) ≡ handle (tables w)
      → let out = with_retry fn attempts w in
        (tables out.world ≡ tables w ⊎ (tables out.world ≡ handle (tables w)))
        × (is_success out.status.code ≡ true → tables out.world ≡ handle (tables w))
  with_retry-once attempts w some_left again =
      let r = with_retry-Retried fn attempts w some_left in
      let before = after-once (tables w) again r.retries w (inl refl) in
      let until = after-once (tables w) again (suc r.retries) w (inl refl) in
      (
        elim until [ inl e ↦ inl (ap tables r.world ∙ e) | inr e ↦ inr (ap tables r.world ∙ e) ],
        λ good.
            ap tables (r.world ∙ after-last fn r.retries w)
            ∙ d.answered (after fn r.retries w)
                (ap (λ st. is_success st.code) (sym r.status) ∙ good)
            ∙ handled (tables w) again (after fn r.retries w) before,
      )

module _ {ℓ κ} {W : Type ℓ} (fn : W → Status × W) (P : W → Type κ)
    (keeps : (w : W) → P w → P (fn w).1) where
  after-keeps : (n : ℕ) (w : W) → P w → P (after fn n w)
  after-keeps zero w h = h
  after-keeps (suc n) w h = after-keeps n (fn w).1 (keeps w h)

  -- What every call keeps, repeated calls keep.
  pub with_retry-keeps :
      (attempts : ℕ) (w : W) → 0 < attempts → P w → P (with_retry fn attempts w).world
  with_retry-keeps attempts w some_left h =
      let r = with_retry-Retried fn attempts w some_left in
      subst P (sym r.world) (after-keeps (suc r.retries) w h)

  -- A success is that of the last call, which acted on what the ones before it left.
  pub with_retry-last :
      (attempts : ℕ) (w : W)
      → 0 < attempts
      → is_success (with_retry fn attempts w).status.code ≡ true
      → P w
      → (v : W) × P v
        × (is_success (fn v).0.code ≡ true)
        × ((with_retry fn attempts w).world ≡ (fn v).1)
  with_retry-last attempts w some_left good h =
      let r = with_retry-Retried fn attempts w some_left in
      (
        after fn r.retries w,
        after-keeps r.retries w h,
        ap (λ st. is_success st.code) (sym r.status) ∙ good,
        r.world ∙ after-last fn r.retries w,
      )
