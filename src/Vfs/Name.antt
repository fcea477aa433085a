-- ===== src/Vfs/Name.antt =====
-- kernel/vfs/ramfs.c: the comparison of names.
use m4_trio.Base.{
  ℕ, zero, suc, ◌+◌, ◌≤◌, ◌<◌, ◌≡◌, ◌≢◌, ◌⊎◌, ◌↔◌, inl, inr, refl, sym, ap, ◌∙◌, true, false,
  Bool-cases, not, ◌==◌, ◌&&◌, arith,
}
use m4_trio.Vfs.{Bytes, Node}
use m4_trio.Vfs.Nodes.{stop, has_name}
use native.Mathlib.Decide.{ℕ_discrete, dec_lt}

-- Where a comparison stops, when the second string ends within the bytes that are left.
record Stopped (a b : Bytes) (j k s : ℕ) : Type 0 where
  low : j ≤ s
  high : s ≤ k
  equal : (i : ℕ) → j ≤ i → i < s → (a i ≡ b i) × (a i ≢ 0)
  ends : (a s ≢ b s) ⊎ (a s ≡ 0)

stop-Stopped :
    (left : ℕ) (a b : Bytes) (j k : ℕ)
    → j ≤ k
    → k < j + left
    → b k ≡ 0
    → Stopped a b j k (stop left a b j)
unfolding stop
stop-Stopped zero a b j k low high z = absurd (omega arith)
stop-Stopped (suc left) a b j k low high z = elim (Bool-cases (a j == b j && not (a j == 0))) [
  | inr e ↦
      rw (stop, e)
        (record {
          low = omega arith;
          high = low;
          equal = λ i i_low i_high. absurd (omega arith);
          ends = differ (a j) (b j) e;
        })
  | inl e ↦
      let same : (a j ≡ b j) × (a j ≢ 0) = ground arith in
      let more : j ≢ k = λ x. same.1 (same.0 ∙ ap b x ∙ z) in
      let rest = stop-Stopped left a b (j + 1) k (omega arith) (omega arith) z in
      rw (stop, e)
        (record {
          low = omega (arith, rest.low);
          high = rest.high;
          equal = λ i i_low i_high. elim (ℕ_discrete i j) [
            | yes x ↦ (ap a x ∙ same.0 ∙ ap b (sym x), λ y. same.1 (ap a (sym x) ∙ y))
            | no ne ↦ rest.equal i (omega arith) i_high
          ];
          ends = rest.ends;
        })
]
  where
    differ : (x y : ℕ) → (x == y && not (x == 0)) ≡ false → (x ≢ y) ⊎ (x ≡ 0)
    differ x y e = elim (ℕ_discrete x 0) [ yes z ↦ inr z | no ne ↦ inl (ground (arith, e, ne)) ]

-- Two strings with the same bytes up to a terminator.
pub record SameString (a b : Bytes) : Type 0 where
  pub length : ℕ
  pub ends : (a length ≡ 0) × (b length ≡ 0)
  pub letters : (j : ℕ) → j < length → (a j ≡ b j) × (a j ≢ 0)

-- For a node whose name has a terminator among its 32 bytes, the comparison with a name ends within
-- them, and it says that the names are the same exactly when they are the same string.
pub has_name_iff :
    (node : Node) (name : Bytes) (k : ℕ)
    → k < 32
    → node.name k ≡ 0
    → (has_name node name ≡ true) ↔ SameString name node.name
unfolding has_name
has_name_iff node name k lt z =
    let s = stop-Stopped 32 name node.name 0 k (omega arith) (omega (arith, lt)) z in
    let at = stop 32 name node.name 0 in
    (
      (λ e. record {
        length = at;
        ends = ground (arith, e);
        letters = λ j j_lt. s.equal j (omega arith) j_lt;
      }),
      (λ v.
          let here : at ≡ v.length = meets at v s in
          rw (has_name, here) (rw v.ends.0 (rw v.ends.1 refl))),
    )
  where
    meets : (at : ℕ) (v : SameString name node.name) → Stopped name node.name 0 k at → at ≡ v.length
    meets at v s = elim (dec_lt at v.length) [
      | yes short ↦ absurd (elim s.ends [
        | inl differ ↦ differ (v.letters at short).0
        | inr end ↦ (v.letters at short).1 end
      ])
      | no not_short ↦ elim (dec_lt v.length at) [
        | yes long ↦ absurd ((s.equal v.length (omega arith) long).1 v.ends.0)
        | no not_long ↦ omega arith
      ]
    ]
