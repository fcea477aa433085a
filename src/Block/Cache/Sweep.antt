-- ===== src/Block/Cache/Sweep.antt =====
-- kernel/block/bcache.c: what a flush of the whole cache does.
use m4_trio.Base.{
  ℕ, zero, suc, ◌+◌, ◌*◌, ◌≤◌, ◌<◌, ◌≡◌, refl, sym, ap, subst, ◌∙◌, true, false, List,
  get_or-set_self, get_or-set_ne, arith,
}
use m4_trio.Block.{World, Status, ok}
use m4_trio.Block.Disk.{byte}
use m4_trio.Block.Cache.{Entry, Cache, no_entry, flush_from, flush_all, flush_entry, update}
use m4_trio.Block.Cache.View.{
  at, IsCached, content, holds-Held, view-hit, view-miss, hit, miss, look,
}
use m4_trio.Block.Cache.Evict.{Keeps, flush_entry-Flushed}
use native.Mathlib.Decide.{ℕ_discrete}

-- What a flush of the entries from index `i` on answers and leaves.
record Swept (w : World) (c : Cache) (i : ℕ) (r : Status × World × Cache) : Type 0 where
  answer : r.0 ≡ ok
  keeps : (d : ℕ) → Keeps w r.1 d
  count : r.2.entry_count ≡ c.entry_count
  size : r.2.block_size ≡ c.block_size
  valid : IsCached r.1 r.2
  same : (d l j : ℕ) → j < c.block_size → content r.1 r.2 d l j ≡ content w c d l j
  rinsed :
      (k : ℕ)
      → i ≤ k
      → k < c.entry_count
      → (at r.2.entries k).valid ≡ true
      → (at r.2.entries k).dirty ≡ false
  before : (k : ℕ) → k < i → at r.2.entries k ≡ at c.entries k

both_Keeps : {w w1 w2 : World} {d : ℕ} → Keeps w w1 d → Keeps w1 w2 d → Keeps w w2 d
both_Keeps a b = record {
  block_size = b.block_size ∙ a.block_size;
  block_count = b.block_count ∙ a.block_count;
  disk = λ was. b.disk (a.disk was);
}

left : (entries : List Entry) {k i : ℕ} {e : Entry} → k ≡ i → at entries i ≡ e → at entries k ≡ e
left entries same now = ap (at entries) same ∙ now

flush_from-step :
    (n i : ℕ) (w : World) (c : Cache)
    → (flush_entry w (at c.entries i)).0 ≡ ok
    → flush_from (suc n) i w c
      ≡ flush_from n
          (i + 1)
          (flush_entry w (at c.entries i)).1
          (update c i (flush_entry w (at c.entries i)).2)
unfolding flush_from
flush_from-step n i w c good = rw good refl

flush_from-Swept :
    (n i : ℕ) {w : World} {c : Cache}
    → IsCached w c
    → i + n ≡ c.entry_count
    → Swept w c i (flush_from n i w c)
unfolding flush_from
flush_from-Swept zero i {w} {c} s e = record {
  answer = refl;
  keeps = λ d. record { block_size = refl; block_count = refl; disk = λ was. was };
  count = refl;
  size = refl;
  valid = s;
  same = λ d l j lt. refl;
  rinsed = λ k low high v. absurd (omega arith);
  before = λ k lt. refl;
}
flush_from-Swept (suc n) i {w} {c} s e =
    let f = flush_entry-Flushed {i = i} s (omega arith) in
    let r = flush_entry w (at c.entries i) in
    let rest = flush_from-Swept n (i + 1) {w = r.1} {c = update c i r.2} f.store (omega arith) in
    subst (Swept w c i) (sym (flush_from-step n i w c f.answer)) (record {
      answer = rest.answer;
      keeps = λ d. both_Keeps (f.keeps d) (rest.keeps d);
      count = rest.count;
      size = rest.size;
      valid = rest.valid;
      same = λ d l j lt. rest.same d l j lt ∙ f.same d l j lt;
      rinsed = λ k low high. elim (ℕ_discrete k i) [
        | no ne ↦ rest.rinsed k (omega arith) high
        | yes same ↦
            let now =
              rest.before i (omega arith)
              ∙ get_or-set_self c.entries i r.2 no_entry (omega (arith, s.sized)) in
            λ v.
              ap (λ x. x.dirty) (left _ same now)
              ∙ f.rinsed (ap (λ x. x.valid) (sym (left _ same now)) ∙ v)
      ];
      before = λ k lt.
          rest.before k (omega arith) ∙ get_or-set_ne c.entries i k r.2 no_entry λ x. ground arith;
    })

-- What a flush of the whole cache answers and leaves.
pub record Flat (w : World) (c : Cache) (r : Status × World × Cache) : Type 0 where
  pub answer : r.0 ≡ ok
  pub keeps : (d : ℕ) → Keeps w r.1 d
  pub valid : IsCached r.1 r.2
  pub same : (d l j : ℕ) → j < c.block_size → content r.1 r.2 d l j ≡ content w c d l j
  pub on_disk :
      (d l j : ℕ) → j < c.block_size → byte r.1 d (l * c.block_size + j) ≡ content w c d l j

Swept-on_disk :
    {w : World} {c : Cache} {r : Status × World × Cache} (d l j : ℕ)
    → Swept w c 0 r
    → j < c.block_size
    → byte r.1 d (l * c.block_size + j) ≡ content w c d l j
Swept-on_disk {w} {c} {r} d l j v lt =
    let j_lt : j < r.2.block_size = omega (arith, v.size) in
    ap (λ n. byte r.1 d (l * n + j)) (sym v.size)
    ∙ elim (look r.2.entry_count r.2.entries d l) [
      | miss free ↦ sym (view-miss r.1 r.2.entry_count r.2.block_size r.2.entries d l j free)
      | hit k k_lt held ↦
          let h = holds-Held (at r.2.entries k) d l held in
          let dry = v.rinsed k (omega arith) (omega (arith, v.count)) h.valid in
          (λ t. byte r.1 (sym h.dev t) (sym h.lba t * r.2.block_size + j))
          ∙ sym (v.valid.clean k k_lt h.valid dry j j_lt)
          ∙ sym (view-hit k d l j v.valid k_lt held)
    ]
    ∙ v.same d l j lt

-- A flush of a valid cache succeeds, and then every disk holds the bytes that were seen through the
-- cache. What is seen stays the same, and the cache stays valid.
pub flush_all-Flat : {w : World} {c : Cache} → IsCached w c → Flat w c (flush_all w c)
unfolding flush_all
flush_all-Flat {w} {c} s =
    let v = flush_from-Swept c.entry_count 0 s (omega arith) in
    record {
      answer = v.answer;
      keeps = v.keeps;
      valid = v.valid;
      same = v.same;
      on_disk = λ d l j. Swept-on_disk d l j v;
    }
