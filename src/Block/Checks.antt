-- ===== src/Block/Checks.antt =====
-- What the tests of `register` in kernel/src/block.rs ask: the shape of a device and the names in use.
use mathlib.Core.Option.{some-injective}
use brane_os.Prelude.{
  ℕ, ◌-◌, ◌^◌, ◌≤◌, ◌≡◌, ◌≢◌, refl, ap, ap₂, sym, ◌∙◌, inl, inr, Bool, true, false, Option, none,
  some, List, [], ◌∷◌, bit_and, ◌==◌, arith, Bool-cases, ==→eq, ==_refl,
}
use brane_os.Prelude.Slots.{find, find_satisfies}
use brane_os.Prelude.Slots.Scans.{In}
use brane_os.Prelude.Bits.Powers.{power_of_two_iff}
use brane_os.Block.{
  BlockDevice, BlockDeviceInfo, RegisteredBlockDevice, bad_geometry, is_power_of_two, is_empty,
  same_bytes, has_name, info_name,
}

same_bytes→eq : (xs ys : List ℕ) → same_bytes xs ys ≡ true → xs ≡ ys
unfolding same_bytes
same_bytes→eq [] [] e = refl
same_bytes→eq [] (y ∷ ys) e = absurd (cc)
same_bytes→eq (x ∷ xs) [] e = absurd (cc)
same_bytes→eq (x ∷ xs) (y ∷ ys) e = elim (Bool-cases (x == y)) [
  | inl h ↦ ap₂ ◌∷◌ (==→eq x y h) (same_bytes→eq xs ys (rw h at e))
  | inr h ↦ absurd (ground (arith, h))
]

same_bytes_refl : (xs : List ℕ) → same_bytes xs xs ≡ true
unfolding same_bytes
same_bytes_refl [] = refl
same_bytes_refl (x ∷ xs) = rw (==_refl x) (same_bytes_refl xs)

module _ {A : Type 0} where
  find-some-In : (p : A → Bool) (s : List (Option A)) {a : A} → find p s ≡ some a → In (some a) s
  unfolding find
  find-some-In p [] e = absurd (cc)
  find-some-In p (none ∷ s) e = inr (find-some-In p s e)
  find-some-In p (some b ∷ s) {a} e = elim (Bool-cases (p b)) [
    | inl h ↦ inl (sym (rw h at e))
    | inr h ↦ inr (find-some-In p s (rw h at e))
  ]

  find-none-In :
      (p : A → Bool) (s : List (Option A)) (a : A) → find p s ≡ none → In (some a) s → p a ≡ false
  unfolding find
  find-none-In p [] a e i = absurd i
  find-none-In p (none ∷ s) a e (inl h) = absurd (cc)
  find-none-In p (none ∷ s) a e (inr i) = find-none-In p s a e i
  find-none-In p (some b ∷ s) a e i = elim (Bool-cases (p b)) [
    | inl h ↦ absurd (ground (arith, h))
    | inr h ↦ elim i [
      | inl q ↦ ap p (some-injective _ _ q) ∙ h
      | inr j ↦ find-none-In p s a (rw h at e) j
    ]
  ]

module _ {D W : Type 0} (driver : BlockDevice D W) where
  -- A device that may be registered: it has a name and at least one block, and its block size is a
  -- power of two from 512 to 65536.
  pub record WellShaped (w : W) (d : D) : Type 0 where
    pub named : driver.name w d ≢ []
    pub large : 512 ≤ driver.block_size w d
    pub small : driver.block_size w d ≤ 65536
    pub power : (k : ℕ) × (driver.block_size w d ≡ 2 ^ k)
    pub some_block : driver.block_count w d ≢ 0

  nonempty : (name : List ℕ) → is_empty name ≡ false → name ≢ []
  nonempty [] e h = absurd (cc)
  nonempty (x ∷ xs) e h = cc

  empty_nil : (name : List ℕ) → is_empty name ≡ true → name ≡ []
  empty_nil [] e = refl
  empty_nil (x ∷ xs) e = absurd (cc)

  pub good-WellShaped : (w : W) (d : D) → bad_geometry driver w d ≡ false → WellShaped w d
  unfolding bad_geometry is_power_of_two
  good-WellShaped w d e =
      let n = driver.block_size w d in
      let no_bit : bit_and n (n - 1) ≡ 0 = ground (arith, e) in
      record {
        named = elim (Bool-cases (is_empty (driver.name w d))) [
          | inl nil ↦ absurd (ground (arith, e, nil))
          | inr some_name ↦ nonempty (driver.name w d) some_name
        ];
        large = ground (arith, e);
        small = ground (arith, e);
        power = (power_of_two_iff n (ground (arith, e))).0 no_bit;
        some_block = λ z. ground (arith, e, z);
      }

  pub bad-WellShaped : (w : W) (d : D) → bad_geometry driver w d ≡ true → WellShaped w d → ⊥
  unfolding bad_geometry is_power_of_two
  bad-WellShaped w d e h =
      let n = driver.block_size w d in
      let no_bit = (power_of_two_iff n (omega (arith, h.large))).1 h.power in
      elim (Bool-cases (is_empty (driver.name w d))) [
        | inl nil ↦ h.named (empty_nil (driver.name w d) nil)
        | inr some_name ↦ ground (arith, e, some_name, no_bit, h.large, h.small, h.some_block)
      ]

  -- A registered device goes by this name.
  pub record NameInUse (is_utf8 : List ℕ → Bool)
      (devices : List (Option (RegisteredBlockDevice driver))) (info : BlockDeviceInfo)
      : Type 0 where
    pub device : RegisteredBlockDevice driver
    pub registered : In (some device) devices
    pub same_name : info_name is_utf8 device.info ≡ info_name is_utf8 info

  pub taken-NameInUse :
      (is_utf8 : List ℕ → Bool) (devices : List (Option (RegisteredBlockDevice driver)))
      (info : BlockDeviceInfo) {h : RegisteredBlockDevice driver}
      → find (has_name driver is_utf8 info) devices ≡ some h
      → NameInUse is_utf8 devices info
  taken-NameInUse is_utf8 devices info {h} e = record {
    device = h;
    registered = find-some-In (has_name driver is_utf8 info) devices e;
    same_name = same_bytes→eq _ _ (find_satisfies (has_name driver is_utf8 info) devices e);
  }

  pub free-NameInUse :
      (is_utf8 : List ℕ → Bool) (devices : List (Option (RegisteredBlockDevice driver)))
      (info : BlockDeviceInfo)
      → find (has_name driver is_utf8 info) devices ≡ none
      → NameInUse is_utf8 devices info
      → ⊥
  free-NameInUse is_utf8 devices info e u =
      let miss = find-none-In (has_name driver is_utf8 info) devices u.device e u.registered in
      let hit =
        ap (λ xs. same_bytes xs (info_name is_utf8 info)) u.same_name
        ∙ same_bytes_refl (info_name is_utf8 info) in
      absurd (ground (arith, miss, hit))
