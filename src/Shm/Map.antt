-- ===== src/Shm/Map.antt =====
-- The pages that `attach_pages_to_process` maps.
use cs537_intro_to_os.Prelude.{
  ℕ, zero, suc, ◌+◌, ◌*◌, ◌≤◌, ◌<◌, ◌≡◌, ◌≢◌, refl, true, false, ◌==◌, arith, update, update_self,
  update_ne, ℕ_discrete, none, some, ap, sym, ◌∙◌, Bool-cases, Option-cases, inl, inr, bit_and,
  bit_or,
}
use cs537_intro_to_os.Shm.{Proc, pgsize, map_page, map_pages}

-- `q` is `p` with the `m` pages from the `i`-th on mapped at `location`.
pub record Mapped (m i location : ℕ) (addr : ℕ → ℕ) (p q : Proc) : Type 0 where
  pub sz : q.sz ≡ p.sz
  pub key_addresses : q.key_addresses ≡ p.key_addresses
  pub current_top : q.current_top ≡ p.current_top
  pub at : (j : ℕ) → i ≤ j → j < i + m → q.ptes (location + j * pgsize) ≡ bit_or (addr j) 7
  pub elsewhere :
      (a : ℕ) → ((j : ℕ) → i ≤ j → j < i + m → a ≢ location + j * pgsize) → q.ptes a ≡ p.ptes a

map_page-some :
    (la pa : ℕ) (p q : Proc)
    → map_page la pa p ≡ some q
    → q ≡ record p { ptes = update p.ptes la (bit_or pa 7) }
unfolding map_page
map_page-some la pa p q h = elim (Bool-cases (bit_and (p.ptes la) 1 == 1)) [
  | inl used ↦ absurd (clash (sym (fails used) ∙ h))
  | inr free ↦ value _ q (sym (passes free) ∙ h)
]
  where
    fails : (bit_and (p.ptes la) 1 == 1) ≡ true → map_page la pa p ≡ none
    fails e = rw e refl

    passes :
        (bit_and (p.ptes la) 1 == 1) ≡ false
        → map_page la pa p ≡ some (record p { ptes = update p.ptes la (bit_or pa 7) })
    passes e = rw e refl

    clash : {x : Proc} → none ≡ some x → ⊥
    clash e = cc

    value : (x y : Proc) → some x ≡ some y → y ≡ x
    value x y e = cc

-- When the pages are mapped, they are so one behind the other.
pub map_pages-Mapped :
    (m i location : ℕ) (addr : ℕ → ℕ) (p q : Proc)
    → map_pages m i location addr p ≡ some q
    → Mapped m i location addr p q
unfolding map_pages
map_pages-Mapped zero i location addr p q h =
    let same : p ≡ q = cc in
    record {
      sz = ap (λ x. x.sz) (sym same);
      key_addresses = ap (λ x. x.key_addresses) (sym same);
      current_top = ap (λ x. x.current_top) (sym same);
      at = λ j from below. absurd (omega arith);
      elsewhere = λ a ne. ap (λ x. x.ptes a) (sym same);
    }
map_pages-Mapped (suc m) i location addr p q h =
    elim (Option-cases (map_page (location + i * pgsize) (addr i) p)) [
      | inl fails ↦ absurd (clash (sym (stops fails) ∙ h))
      | inr (r, first) ↦
          let one = map_page-some (location + i * pgsize) (addr i) p r first in
          let rest = map_pages-Mapped m (i + 1) location addr r q (sym (goes_on r first) ∙ h) in
          record {
            sz = rest.sz ∙ ap (λ x. x.sz) one;
            key_addresses = rest.key_addresses ∙ ap (λ x. x.key_addresses) one;
            current_top = rest.current_top ∙ ap (λ x. x.current_top) one;
            at = λ j from below. elim (ℕ_discrete j i) [
              | yes e ↦
                  rest.elsewhere (location + j * pgsize) (λ l lo hi same. omega arith)
                  ∙ ap (λ x. x.ptes (location + j * pgsize)) one
                  ∙ rw e (update_self p.ptes (location + i * pgsize) (bit_or (addr i) 7))
              | no ne ↦ rest.at j (omega arith) (omega arith)
            ];
            elsewhere = λ a ne.
                rest.elsewhere a (λ j lo hi. ne j (omega arith) (omega arith))
                ∙ ap (λ x. x.ptes a) one
                ∙ update_ne p.ptes (location + i * pgsize) (bit_or (addr i) 7) a
                    (ne i (omega arith) (omega arith));
          }
    ]
  where
    stops :
        map_page (location + i * pgsize) (addr i) p ≡ none
        → map_pages (suc m) i location addr p ≡ none
    stops e = rw (map_pages, e) refl

    goes_on :
        (r : Proc)
        → map_page (location + i * pgsize) (addr i) p ≡ some r
        → map_pages (suc m) i location addr p ≡ map_pages m (i + 1) location addr r
    goes_on r e = rw (map_pages, e) refl

    clash : {x : Proc} → none ≡ some x → ⊥
    clash e = cc

pub map_pages-returns :
    (m i location : ℕ) (addr : ℕ → ℕ) (p : Proc)
    → ((j : ℕ) → i ≤ j → j < i + m → (bit_and (p.ptes (location + j * pgsize)) 1 == 1) ≡ false)
    → (q : Proc) × (map_pages m i location addr p ≡ some q)
unfolding map_pages map_page
map_pages-returns zero i location addr p clear = (p, refl)
map_pages-returns (suc m) i location addr p clear =
    let here = clear i (omega arith) (omega arith) in
    let p' : Proc = record p { ptes = update p.ptes (location + i * pgsize) (bit_or (addr i) 7) } in
    let (q, runs) = map_pages-returns m (i + 1) location addr p' λ j from below.
      ap (λ v. bit_and v 1 == 1)
        (update_ne p.ptes (location + i * pgsize) _ (location + j * pgsize) (λ e. omega arith))
      ∙ clear j (omega arith) (omega arith) in
    (q, rw (map_pages, map_page, here) runs)
