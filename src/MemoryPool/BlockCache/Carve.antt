-- ===== src/MemoryPool/BlockCache/Carve.antt =====
-- Which blocks of a new span lie inside it.
use learncc.Prelude.{
  ℕ, zero, suc, ◌+◌, ◌-◌, ◌*◌, ◌%◌, ◌≤◌, ◌<◌, ◌≡◌, ◌↔◌, inl, inr, ap, sym, subst, ◌∙◌, ltb, arith,
  Every, Bool-cases,
}
use native.Mathlib.Nat.{mod-eq-sub-mod, mod-eq_of_lt, mod_self}
use learncc.MemoryPool.BlockCache.{carve, new_blocks, page_size}

abbrev pub EndsBefore : ℕ → ℕ → ℕ → Type 0
EndsBefore bytes stop b = b + bytes ≤ stop

mod_step :
    (bytes cur stop : ℕ)
    → cur + bytes ≤ stop
    → (stop - cur) % bytes ≡ (stop - (cur + bytes)) % bytes
mod_step bytes cur stop h =
    let apart : stop - cur - bytes ≡ stop - (cur + bytes) = omega arith in
    let some_room : bytes ≤ stop - cur = omega arith in
    mod-eq-sub-mod some_room ∙ ap (λ n. n % bytes) apart

mod_last :
    (bytes cur stop : ℕ)
    → 1 ≤ bytes
    → cur < stop
    → stop ≤ cur + bytes
    → (stop - cur) % bytes ≡ 0
    → cur + bytes ≤ stop
mod_last bytes cur stop h l k e = elim (Bool-cases (ltb (stop - cur) bytes)) [
  | inl small ↦
      let whole : (stop - cur) % bytes ≡ stop - cur = mod-eq_of_lt (ground arith) in
      absurd (omega arith)
  | inr full ↦ ground arith
]

mod_exact : (bytes cur stop : ℕ) → cur + bytes ≡ stop → (stop - cur) % bytes ≡ 0
mod_exact bytes cur stop e =
    let all_of : stop - cur ≡ bytes = omega arith in rw (all_of) (mod_self bytes)

carve_fits :
    (fuel bytes cur stop : ℕ)
    → 1 ≤ bytes
    → cur < stop
    → stop ≤ cur + fuel
    → Every (EndsBefore bytes stop) (carve fuel bytes cur stop) ↔ ((stop - cur) % bytes ≡ 0)
unfolding carve
carve_fits zero bytes cur stop h l k = absurd (omega arith)
carve_fits (suc fuel) bytes cur stop h l k = elim (Bool-cases (ltb (cur + bytes) stop)) [
  | inl more ↦
      let (fits, exact) = carve_fits fuel bytes (cur + bytes) stop h (ground arith) (omega arith) in
      let same = mod_step bytes cur stop (ground arith) in
      rw (more, carve) ((λ r. same ∙ fits r.1), (λ e. (ground arith, exact (sym same ∙ e))))
  | inr last ↦
      rw (last, carve)
        (
          (λ r. mod_exact bytes cur stop (ground arith)),
          (λ e. (mod_last bytes cur stop h l (ground arith) e, tt)),
        )
]

-- The blocks of a new span all lie inside it exactly if their size divides the length of the span; else
-- the last of them reaches into the memory behind.
pub new_blocks-Every_iff :
    (bytes start pages : ℕ)
    → 1 ≤ bytes
    → 1 ≤ pages
    → Every (EndsBefore bytes (start + pages * page_size)) (new_blocks bytes start pages)
      ↔ (pages * page_size % bytes ≡ 0)
unfolding new_blocks
new_blocks-Every_iff bytes start pages h k =
    let long : start + pages * page_size - start ≡ pages * page_size = omega arith in
    subst
      (λ n.
        Every (EndsBefore bytes (start + pages * page_size))
          (carve (pages * page_size) bytes start (start + pages * page_size))
        ↔ (n % bytes ≡ 0))
      long
      (carve_fits (pages * page_size) bytes start (start + pages * page_size) h (omega arith)
        (omega arith))
