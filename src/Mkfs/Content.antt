-- ===== src/Mkfs/Content.antt =====
-- The bytes that the image builder copies: from a file, and of a name.
use lilac_os.Base.{
  ℕ, zero, suc, ◌+◌, ◌-◌, ◌≤◌, ◌<◌, ◌≡◌, ◌≢◌, ◌∙◌, ◌⊎◌, inl, inr, refl, sym, ap, List, [], ◌∷◌,
  length, arith, eq-cases, lt-cases, eq→==, ne→==,
}
use lilac_os.Memory.{
  Memory, IsBytes, store8, store16, store32, store16-outside, store32-outside, store16-IsBytes,
  store32-IsBytes,
}
use lilac_os.Strings.Laws.{IsString}
use lilac_os.Fs.{get_block, block_size}
use lilac_os.Mkfs.{fread, put_name}
use lilac_os.Mkfs.Keeping.{Inside, Writes}

-- The byte `k` of a list, or 0 behind its end.
unfoldable pub byte_at : List ℕ → ℕ → ℕ
byte_at [] k = 0
byte_at (c ∷ content) zero = c
byte_at (c ∷ content) (suc k) = byte_at content k

unfoldable pub drop : ℕ → List ℕ → List ℕ
drop zero content = content
drop (suc n) [] = []
drop (suc n) (c ∷ content) = drop n content

pub length-drop : (n : ℕ) (content : List ℕ) → length (drop n content) ≡ length content - n
unfolding drop
length-drop zero content = omega arith
length-drop (suc n) [] = omega arith
length-drop (suc n) (c ∷ content) = omega (arith, length-drop n content)

pub byte_at-drop :
    (n k : ℕ) (content : List ℕ) → byte_at (drop n content) k ≡ byte_at content (n + k)
unfolding drop byte_at
byte_at-drop zero k content = ap (byte_at content) (omega arith)
byte_at-drop (suc n) k [] = refl
byte_at-drop (suc n) k (c ∷ content) =
    let next : suc n + k ≡ suc (n + k) = omega arith in
    byte_at-drop n k content ∙ sym (ap (byte_at (c ∷ content)) next)

drop_nil : (n : ℕ) → drop n [] ≡ []
unfolding drop
drop_nil zero = refl
drop_nil (suc n) = refl

pub drop-drop : (m n : ℕ) (content : List ℕ) → drop m (drop n content) ≡ drop (n + m) content
unfolding drop
drop-drop m zero content = ap (λ k. drop k content) (omega arith)
drop-drop m (suc n) [] = drop_nil m ∙ sym (drop_nil (suc n + m))
drop-drop m (suc n) (c ∷ content) =
    let next : suc (n + m) ≡ suc n + m = omega arith in
    drop-drop m n content ∙ ap (λ k. drop k (c ∷ content)) next

-- Each of the bytes is below 256.
abbrev pub Bytes : List ℕ → Type 0
Bytes content = (k : ℕ) → byte_at content k < 256

pub store8_self : (d : Memory) (p v : ℕ) → v < 256 → store8 d p v p ≡ v
unfolding store8
store8_self d p v h = rw (eq→== p p refl) (omega (arith, h))

pub store8_ne : (d : Memory) (p v q : ℕ) → p ≢ q → store8 d p v q ≡ d q
unfolding store8
store8_ne d p v q ne = rw (ne→== p q ne)

pub store8-IsBytes : (d : Memory) (p v : ℕ) → IsBytes d → IsBytes (store8 d p v)
unfolding store8
store8-IsBytes d p v b q = ground (arith, b q)

-- What `fread` leaves.
pub record IsRead (n : ℕ) (content : List ℕ) (place : ℕ) (d : Memory) (result : List ℕ × Memory)
    : Type 0 where
  pub left : result.0 ≡ drop n content
  pub inside : (k : ℕ) → k < n → k < length content → result.1 (place + k) ≡ byte_at content k
  pub outside : (q : ℕ) → (q < place) ⊎ (place + n ≤ q) → result.1 q ≡ d q
  pub bytes : IsBytes d → IsBytes result.1

pub fread_lem :
    (n : ℕ) (content : List ℕ) (place : ℕ) (d : Memory)
    → Bytes content
    → IsRead n content place d (fread n content place d)
unfolding fread drop byte_at
fread_lem zero content place d b = record {
  left = refl;
  inside = λ k p q. absurd (omega (arith, p));
  outside = λ q h. refl;
  bytes = λ h. h;
}
fread_lem (suc n) [] place d b = record {
  left = refl;
  inside = λ k p q. absurd (omega (arith, q));
  outside = λ q h. refl;
  bytes = λ h. h;
}
fread_lem (suc n) (c ∷ content) place d b =
    let rest = fread_lem n content (place + 1) (store8 d place c) (λ k. b (suc k)) in
    record {
      left = rest.left;
      inside = λ k p q. elim (eq-cases k 0) [
        | inl e ↦
            let here : place + k ≡ place = omega (arith, e) in
            ap ((fread n content (place + 1) (store8 d place c)).1) here
            ∙ (rest.outside place (inl (omega arith))
                ∙ (store8_self d place c (b 0) ∙ ap (byte_at (c ∷ content)) (sym e)))
        | inr ne ↦
            let there : place + k ≡ place + 1 + (k - 1) = omega (arith, ne) in
            let back : suc (k - 1) ≡ k = omega (arith, ne) in
            ap ((fread n content (place + 1) (store8 d place c)).1) there
            ∙ (rest.inside (k - 1) (omega (arith, p, ne)) (omega (arith, q, ne))
                ∙ ap (byte_at (c ∷ content)) back)
      ];
      outside = λ q h.
          rest.outside q (ground (arith, h)) ∙ store8_ne d place c q (λ e. ground (arith, h, e));
      bytes = λ h. rest.bytes (store8-IsBytes d place c h);
    }

-- The name and its zero byte stand at the address, and no other byte changed.
pub record IsNamed (name : List ℕ) (address : ℕ) (d e : Memory) : Type 0 where
  pub string : IsString e address name
  pub outside : (q : ℕ) → (q < address) ⊎ (address + length name + 1 ≤ q) → e q ≡ d q
  pub bytes : IsBytes d → IsBytes e

-- The bytes of a name: each below 256, and none zero.
abbrev pub Letters : List ℕ → Type 0
Letters [] = Unit
Letters (c ∷ name) = (c < 256) × (c ≢ 0) × Letters name

pub put_name_lem :
    (name : List ℕ) (address : ℕ) (d : Memory)
    → Letters name
    → IsNamed name address d (put_name name address d)
unfolding put_name IsString
put_name_lem [] address d l = record {
  string = store8_self d address 0 (omega arith);
  outside = λ q h. store8_ne d address 0 q (λ e. ground (arith, h, e));
  bytes = λ h. store8-IsBytes d address 0 h;
}
put_name_lem (c ∷ name) address d (small, ne, l) =
    let rest = put_name_lem name (address + 1) (store8 d address c) l in
    record {
      string = (
        rest.outside address (inl (omega arith)) ∙ store8_self d address c small,
        ne,
        rest.string,
      );
      outside = λ q h.
          rest.outside q (ground (arith, h)) ∙ store8_ne d address c q (λ e. ground (arith, h, e));
      bytes = λ h. rest.bytes (store8-IsBytes d address c h);
    }

-- Writes of two and four bytes in a block, and several writes in one.
pub away :
    (p n b q : ℕ)
    → ¬ (Inside b q)
    → get_block b ≤ p
    → p + n ≤ get_block b + block_size
    → (q < p) ⊎ (p + n ≤ q)
away p n b q out lo hi = elim (lt-cases q p) [
  | inl l ↦ inl l
  | inr l ↦ elim (lt-cases q (p + n)) [
    | inl r ↦ absurd (out (omega (arith, lo, l), omega (arith, r, hi)))
    | inr r ↦ inr r
  ]
]

pub Writes-store16 :
    (d : Memory) (p v b : ℕ)
    → IsBytes d
    → get_block b ≤ p
    → p + 2 ≤ get_block b + block_size
    → Writes d (store16 d p v) b
Writes-store16 d p v b h lo hi = record {
  bytes = store16-IsBytes d p v h;
  outside = λ q out. store16-outside d p v q (away p 2 b q out lo hi);
}

pub Writes-store32 :
    (d : Memory) (p v b : ℕ)
    → IsBytes d
    → get_block b ≤ p
    → p + 4 ≤ get_block b + block_size
    → Writes d (store32 d p v) b
Writes-store32 d p v b h lo hi = record {
  bytes = store32-IsBytes d p v h;
  outside = λ q out. store32-outside d p v q (away p 4 b q out lo hi);
}

pub Writes-trans : {d e f : Memory} {b : ℕ} → Writes d e b → Writes e f b → Writes d f b
Writes-trans v w = record { bytes = w.bytes; outside = λ q out. w.outside q out ∙ v.outside q out }

pub Writes-fread :
    (content : List ℕ) (b : ℕ) (d : Memory)
    → Bytes content
    → IsBytes d
    → Writes d (fread block_size content (get_block b) d).1 b
Writes-fread content b d small h =
    let r = fread_lem block_size content (get_block b) d small in
    record {
      bytes = r.bytes h;
      outside =
          λ q out. r.outside q (away (get_block b) block_size b q out (omega arith) (omega arith));
    }
