-- ===== src/Block/Cache/Victim.antt =====
-- kernel/block/bcache.c: the choice of a victim.
use m4_trio.Base.{
  ℕ, zero, suc, ◌+◌, ◌%◌, ◌<◌, ◌≡◌, ◌≢◌, refl, sym, subst, true, false, Option, none, some, List,
  get_or-set_self, ne→==, add32, arith,
}
use m4_trio.Block.{World, Status, ok}
use m4_trio.Block.Cache.{
  Entry, Cache, no_entry, holds, find_unused, choose, select_victim, flush_entry,
}
use m4_trio.Block.Cache.View.{at, IsStore, IsCached, view, content}
use m4_trio.Block.Cache.Place.{not_both}
use m4_trio.Block.Cache.Evict.{Keeps, flush_entry-Flushed}
use native.Mathlib.Nat.{mod-lt}

-- A victim was chosen: it is free or clean, and what is seen of every block is the same.
pub record Chosen (w : World) (c : Cache) (r : Status × World × Cache × ℕ) : Type 0 where
  pub answer : r.0 ≡ ok
  pub keeps : (d : ℕ) → Keeps w r.1 d
  pub count : r.2.entry_count ≡ c.entry_count
  pub size : r.2.block_size ≡ c.block_size
  pub index : r.3 < c.entry_count
  pub store : IsStore r.1 c.entry_count c.block_size r.2.entries
  pub same :
      (d l j : ℕ)
      → j < c.block_size
      → view r.1 c.entry_count c.block_size r.2.entries d l j ≡ content w c d l j
  pub held : (d l k : ℕ) → holds (at r.2.entries k) d l ≡ holds (at c.entries k) d l
  pub unused : (at r.2.entries r.3).valid ≡ true → (at r.2.entries r.3).dirty ≡ false

mod_lt : (a n : ℕ) → n ≢ 0 → a % n < n
mod_lt a n ne = mod-lt a (omega arith)

find_unused-free :
    (n pass : ℕ) (c : Cache) (start k : ℕ)
    → c.entry_count ≢ 0
    → find_unused n pass c start ≡ some k
    → (k < c.entry_count) × ((at c.entries k).valid ≡ false)
unfolding find_unused
find_unused-free zero pass c start k ne e = ground arith
find_unused-free (suc n) pass c start k ne e =
    ground (
      arith,
      find_unused-free n (pass + 1) c start k ne,
      mod_lt (add32 start pass) c.entry_count ne,
    )

choose-Chosen :
    {w : World} {c : Cache} {start : ℕ} (u : Option ℕ)
    → IsCached w c
    → start < c.entry_count
    → ((k : ℕ) → u ≡ some k → (k < c.entry_count) × ((at c.entries k).valid ≡ false))
    → Chosen w c (choose w c start u)
unfolding choose
choose-Chosen (some k) s lt found = record {
  answer = refl;
  keeps = λ d. record { block_size = refl; block_count = refl; disk = λ was. was };
  count = refl;
  size = refl;
  index = (found k refl).0;
  store = s;
  same = λ d l j j_lt. refl;
  held = λ d l k. refl;
  unused = λ v. absurd (not_both v (found k refl).1);
}
choose-Chosen {w} {c} {start} none s lt found =
    let f = flush_entry-Flushed s lt in
    record {
      answer = f.answer;
      keeps = f.keeps;
      count = refl;
      size = refl;
      index = lt;
      store = f.store;
      same = f.same;
      held = f.held;
      unused =
          rw
            (get_or-set_self c.entries start (flush_entry w (at c.entries start)).2 no_entry
              (omega (arith, s.sized, lt)))
            f.rinsed;
    }

pub select_victim-Chosen : {w : World} {c : Cache} → IsCached w c → Chosen w c (select_victim w c)
unfolding select_victim
select_victim-Chosen {w} {c} s =
    let start = c.clock_hand % c.entry_count in
    rw (ne→== c.entry_count 0 s.nonempty) (
      choose-Chosen (find_unused c.entry_count 0 c start) s
        (mod_lt c.clock_hand c.entry_count s.nonempty)
        λ k e. find_unused-free c.entry_count 0 c start k s.nonempty e)

-- The cache's own fields in place of the numbers that they are.
pub recount :
    {w : World} {n n' size size' : ℕ} {entries : List Entry}
    → n' ≡ n
    → size' ≡ size
    → IsStore w n size entries
    → IsStore w n' size' entries
recount {w} {n} {size'} {entries} a b s =
    subst (λ x. IsStore w x size' entries) (sym a) (subst (λ x. IsStore w n x entries) (sym b) s)

pub recount_view :
    {n n' size size' : ℕ} (w : World) (entries : List Entry) (d l j : ℕ)
    → n' ≡ n
    → size' ≡ size
    → view w n' size' entries d l j ≡ view w n size entries d l j
recount_view w entries d l j a b = λ t. view w (a t) (b t) entries d l j
