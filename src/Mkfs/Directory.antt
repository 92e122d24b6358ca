-- ===== src/Mkfs/Directory.antt =====
-- `walk`: the regular files of the directory, packed one behind the other.
use lilac_os.Base.{
  ℕ, suc, ◌+◌, ◌≤◌, ◌≡◌, refl, sym, subst, Bool, true, false, List, [], ◌∷◌, length, Option, none,
  some, arith, if◌then◌else◌,
}
use lilac_os.Fs.{fat_size}
use lilac_os.Mkfs.{Image, Entry, pack, is_dots, walk}
use lilac_os.Mkfs.Filling.{Fits}
use lilac_os.Mkfs.Packed.{IsDirectory, IsPacked, cost, pack_lem}

-- The files that `walk` packs, and the blocks that they take.
unfoldable pub packable : List Entry → List Entry
packable [] = []
packable (entry ∷ entries) =
    let rest = packable entries in
    if is_dots entry.name then rest else if entry.regular then entry ∷ rest else rest

unfoldable pub costs : List Entry → ℕ
costs [] = 0
costs (entry ∷ entries) = cost entry + costs entries

-- Each of the entries fits.
unfoldable pub AllFit : List Entry → Type 0
AllFit [] = Unit
AllFit (entry ∷ entries) = Fits entry × AllFit entries

-- `files` has the entries from the index `k` on.
unfoldable pub Follow : (ℕ → Entry) → ℕ → List Entry → Type 0
Follow files k [] = Unit
Follow files k (entry ∷ entries) = (files k ≡ entry) × Follow files (suc k) entries

abbrev Walked : (ℕ → Entry) → ℕ → Image → List Entry → Option Image → Type 0
Walked files k image es result =
    AllFit es
    → Follow files k es
    → k + length es ≤ fat_size
    → costs es ≤ image.unused
    → IsPacked files (k + length es) (costs es) image result

-- A file is packed, and then the others.
join :
    {files : ℕ → Entry} {k one others : ℕ} {image : Image} {first : Option Image}
    {result : Option Image} (n : ℕ)
    → (p : IsPacked files (suc k) one image first)
    → IsPacked files (suc k + n) others p.after result
    → IsPacked files (k + suc n) (one + others) image result
join {files} {k} n p q =
    let sum : suc k + n ≡ k + suc n = omega arith in
    record {
      after = q.after;
      returns = q.returns;
      directory = subst (λ x. IsDirectory files x q.after) sum q.directory;
      count = omega (arith, q.count, p.count);
    }

walk_one :
    {files : ℕ → Entry} {k : ℕ} {image : Image} (entry : Entry) (entries : List Entry)
    → IsDirectory files k image
    → ((after : Image)
        → IsDirectory files (suc k) after
        → Walked files (suc k) after (packable entries) (walk entries after))
    → Walked files k image
        (entry ∷ packable entries)
        (elim (pack entry image) [ none ↦ none | some after ↦ walk entries after ])
unfolding costs AllFit Follow
walk_one {files} {k} {image} entry entries dir others (fits, fit) (here, follow) few room =
    let p =
      subst (λ e. IsPacked files (suc k) (cost e) image (pack e image)) here
        (pack_lem dir (omega (arith, few)) (subst Fits (sym here) fits)
          (subst (λ e. cost e ≤ image.unused) (sym here) (omega (arith, room)))) in
    rw (p.returns) (
      join (length (packable entries)) p
        (others p.after p.directory fit follow (omega (arith, few)) (omega (arith, room, p.count))))

walk_none :
    (files : ℕ → Entry) (k : ℕ) (image : Image)
    → IsDirectory files k image
    → Walked files k image [] (some image)
unfolding costs
walk_none files k image dir fit follow few room =
    let sum : k ≡ k + 0 = omega arith in
    record {
      after = image;
      returns = refl;
      directory = subst (λ x. IsDirectory files x image) sum dir;
      count = omega arith;
    }

-- The branches of `walk` are those of `packable`.
choose :
    (files : ℕ → Entry) (k : ℕ) (image : Image) (rest more : List Entry)
    (skipped packed : Option Image) (dots regular : Bool)
    → Walked files k image rest skipped
    → Walked files k image more packed
    → Walked files k image
        (if dots then rest else if regular then more else rest)
        (if dots then skipped else if regular then packed else skipped)
choose files k image rest more skipped packed true regular skip take = skip
choose files k image rest more skipped packed false true skip take = take
choose files k image rest more skipped packed false false skip take = skip

pub walk_lem :
    (files : ℕ → Entry) (k : ℕ) (image : Image) (entries : List Entry)
    → IsDirectory files k image
    → Walked files k image (packable entries) (walk entries image)
unfolding walk packable
walk_lem files k image [] dir = walk_none files k image dir
walk_lem files k image (entry ∷ entries) dir =
    choose files k image (packable entries) _ _ _ (is_dots entry.name) entry.regular
      (walk_lem files k image entries dir)
      (walk_one entry entries dir (λ after d. walk_lem files (suc k) after entries d))
