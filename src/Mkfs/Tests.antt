-- ===== src/Mkfs/Tests.antt =====
-- A small directory, packed and read by the kernel.
use lilac_os.Base.{
  ℕ, zero, suc, ◌<◌, ◌≡◌, ◌∙◌, refl, sym, ap, true, false, List, [], ◌∷◌, Option, none, some, arith,
}
use lilac_os.Memory.{Memory, store8}
use lilac_os.Strings.Laws.{IsString}
use lilac_os.Mkfs.{Entry, blank, mkfs, is_dots}
use lilac_os.Mkfs.Content.{byte_at, Bytes, store8-IsBytes, store8_self, store8_ne}
use lilac_os.Mkfs.Filling.{Fits}
use lilac_os.Mkfs.Directory.{packable, costs, AllFit}
use lilac_os.Mkfs.Whole.{entry_at, IsMade, mkfs_lem}
use lilac_os.Mkfs.Reading.{IsLoaded, IsRead, readall-mkfs}

-- The directory, a subdirectory, and the files "a" and "b", of which "b" is empty.
abbrev file_a : Entry
file_a = record { name = 97 ∷ []; regular = true; content = 7 ∷ 8 ∷ [] }

abbrev file_b : Entry
file_b = record { name = 98 ∷ []; regular = true; content = [] }

abbrev rootfs : List Entry
rootfs =
    record { name = 46 ∷ []; regular = false; content = [] }
    ∷ file_a
    ∷ record { name = 99 ∷ []; regular = false; content = [] }
    ∷ file_b
    ∷ []

packable_rootfs : packable rootfs ≡ file_a ∷ file_b ∷ []
unfolding packable is_dots
packable_rootfs = refl

file_a-Bytes : Bytes (7 ∷ 8 ∷ [])
unfolding byte_at
file_a-Bytes zero = omega arith
file_a-Bytes (suc zero) = omega arith
file_a-Bytes (suc (suc k)) = omega arith

file_a-Fits : Fits file_a
unfolding byte_at
file_a-Fits = record {
  letters = (omega arith, omega arith, tt);
  short = omega arith;
  bytes = file_a-Bytes;
  small = omega arith;
}

file_b-Fits : Fits file_b
unfolding byte_at
file_b-Fits = record {
  letters = (omega arith, omega arith, tt);
  short = omega arith;
  bytes = λ k. omega arith;
  small = omega arith;
}

rootfs-AllFit : AllFit (packable rootfs)
unfolding packable AllFit is_dots
rootfs-AllFit = (file_a-Fits, (file_b-Fits, tt))

rootfs_costs : costs (packable rootfs) ≡ 3
unfolding packable costs is_dots
rootfs_costs = refl

mkfs_lem_example : IsMade (packable rootfs) (mkfs rootfs)
unfolding packable is_dots
mkfs_lem_example = mkfs_lem rootfs rootfs-AllFit (omega arith) (omega (arith, rootfs_costs))

-- The memory of the kernel, with the name "a" at 2000000.
abbrev named : Memory → Memory
named image = store8 (store8 image 2000000 97) 2000001 0

made : IsMade (packable rootfs) (mkfs rootfs)
unfolding packable is_dots
made = mkfs_lem rootfs rootfs-AllFit (omega arith) (omega (arith, rootfs_costs))

abbrev image_or_blank : Option Memory → Memory
image_or_blank none = blank.bytes
image_or_blank (some d) = d

abbrev loaded : Memory
loaded = named made.image

loaded-IsLoaded : IsLoaded (mkfs rootfs) loaded
loaded-IsLoaded = record {
  bytes =
      store8-IsBytes (store8 made.image 2000000 97) 2000001 0
        (store8-IsBytes made.image 2000000 97 made.rootfs.consistent.bytes);
  same = λ d e q h.
      store8_ne (store8 made.image 2000000 97) 2000001 0 q (λ f. omega (arith, f, h))
      ∙ (store8_ne made.image 2000000 97 q (λ f. omega (arith, f, h))
          ∙ ap (λ x. x q) (ap image_or_blank (sym made.returns ∙ e)));
}

name_a : (image : Memory) → IsString (named image) 2000000 (97 ∷ [])
unfolding IsString
name_a image = (
  store8_ne (store8 image 2000000 97) 2000001 0 2000000 (λ e. omega (arith, e))
      ∙ store8_self image 2000000 97 (omega arith),
  (λ e. omega (arith, e)),
  store8_self (store8 image 2000000 97) 2000001 0 (omega arith),
)

first_name : (entry_at (packable rootfs) 0).name ≡ 97 ∷ []
unfolding packable is_dots entry_at
first_name = refl

other_names :
    (j : ℕ)
    → j < 2
    → (entry_at (packable rootfs) j).name ≡ (entry_at (packable rootfs) 0).name
    → j ≡ 0
unfolding packable is_dots entry_at byte_at
other_names zero h e = refl
other_names (suc zero) h e =
    let letter : 98 ≡ 97 = ap (λ l. byte_at l 0) e in absurd (omega (arith, letter))
other_names (suc (suc j)) h e = absurd (omega (arith, h))

readall-mkfs_example : IsRead 32 (entry_at (packable rootfs) 0) loaded 2000000 3000000
unfolding packable is_dots entry_at
readall-mkfs_example =
    readall-mkfs rootfs loaded 32 2000000 3000000 0 rootfs-AllFit (omega arith)
      (omega (arith, rootfs_costs)) loaded-IsLoaded (omega arith) other_names (name_a made.image)
      (omega arith) (omega arith)
