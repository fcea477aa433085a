-- ===== src/Elf/Words.antt =====
-- What the loader reads from an image of bytes fits its fields.
use m4_trio.Base.{ℕ, zero, suc, ◌+◌, ◌^◌, ◌<◌, List, All, All-get_or, u64_mod, arith}
use native.Mathlib.Nat.{pow-suc}
use m4_trio.Elf.{le_bytes, read_ehdr, read_phdr, Ehdr}
use m4_trio.Elf.Bounds.{IsPhdr}

le_bytes-lt : (n at : ℕ) (image : List ℕ) → All (λ b. b < 256) image → le_bytes image n at < 256 ^ n
unfolding le_bytes
le_bytes-lt zero at image h = omega arith
le_bytes-lt (suc n) at image h = omega (
  arith,
  le_bytes-lt n (at + 1) image h,
  All-get_or (λ b. b < 256) image at 0 h (omega arith),
  pow-suc 256 n,
)

pub read_phdr-IsPhdr :
    (image : List ℕ) (at : ℕ) → All (λ b. b < 256) image → IsPhdr (read_phdr image at)
unfolding read_phdr
read_phdr-IsPhdr image at h = record {
  offset = le_bytes-lt 8 (at + 8) image h;
  vaddr = le_bytes-lt 8 (at + 16) image h;
  filesz = le_bytes-lt 8 (at + 32) image h;
  memsz = le_bytes-lt 8 (at + 40) image h;
  align = le_bytes-lt 8 (at + 48) image h;
}

-- The fields of the ELF header are words of their widths.
pub record IsEhdr (eh : Ehdr) : Type 0 where
  pub entry : eh.e_entry < u64_mod
  pub phoff : eh.e_phoff < u64_mod
  pub phnum : eh.e_phnum < 2 ^ 16

pub read_ehdr-IsEhdr : (image : List ℕ) → All (λ b. b < 256) image → IsEhdr (read_ehdr image)
unfolding read_ehdr
read_ehdr-IsEhdr image h = record {
  entry = le_bytes-lt 8 24 image h;
  phoff = le_bytes-lt 8 32 image h;
  phnum = le_bytes-lt 2 56 image h;
}
