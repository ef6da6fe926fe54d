-- ===== src/Correlator/Duplicates/Keys.antt =====
-- Chains are compared by their type and their events.
use breach_scope.Prelude.{
  String, ◌≡◌, ◌↔◌, refl, sym, ap, inl, inr, true, List, [], ◌∷◌, eq_iff, arith, In, Bool-cases,
}
use breach_scope.Correlator.Duplicates.{ChainKey, same_texts, same_chain_key, has_chain_key}

same_texts_iff : (xs ys : List String) → (same_texts xs ys ≡ true) ↔ (xs ≡ ys)
unfolding same_texts
same_texts_iff [] [] = ((λ h. refl), (λ e. refl))
same_texts_iff [] (y ∷ ys) = ((λ h. cc h), (λ e. cc e))
same_texts_iff (x ∷ xs) [] = ((λ h. cc h), (λ e. cc e))
same_texts_iff (x ∷ xs) (y ∷ ys) = ground (arith, eq_iff x y, same_texts_iff xs ys)

pub same_chain_key_iff : (a b : ChainKey) → (same_chain_key a b ≡ true) ↔ (a ≡ b)
unfolding same_chain_key
same_chain_key_iff a b = (
  (λ h.
      let e : a.0 ≡ b.0 = ground (arith, h, eq_iff a.0 b.0) in
      let f : a.1 ≡ b.1 = ground (arith, h, same_texts_iff a.1 b.1) in λ i. (e i, f i)),
  (λ e.
      let e0 = ap (λ (k : ChainKey). k.0) e in
      let e1 = ap (λ (k : ChainKey). k.1) e in
      ground (arith, e0, e1, eq_iff a.0 b.0, same_texts_iff a.1 b.1)),
)

pub has_chain_key_iff :
    (k : ChainKey) (seen : List ChainKey) → (has_chain_key k seen ≡ true) ↔ In k seen
unfolding has_chain_key
has_chain_key_iff k [] = ((λ h. cc h), (λ m. elim m [ ]))
has_chain_key_iff k (s ∷ seen) = (
  (λ h. elim (Bool-cases (same_chain_key s k)) [
    | inl hit ↦ inl (sym ((same_chain_key_iff s k).0 hit))
    | inr miss ↦ inr ((has_chain_key_iff k seen).0 (rw miss at h))
  ]),
  (λ m. elim m [
    | inl e ↦ rw ((same_chain_key_iff s k).1 (sym e)) refl
    | inr l ↦ elim (Bool-cases (same_chain_key s k)) [
      | inl hit ↦ rw hit refl
      | inr miss ↦ rw miss ((has_chain_key_iff k seen).1 l)
    ]
  ]),
)
