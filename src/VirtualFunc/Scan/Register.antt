-- ===== src/VirtualFunc/Scan/Register.antt =====
-- vf.go: what the registry holds behind a registration and its removal.
use sequel.Base.{
  equal-eq, equal_refl, ◌≡◌, refl, true, false, [], ◌∷◌, none, some, arith, Bytes, equal, to_upper,
  if◌then◌else◌, Bool-cases, inl, inr,
}
use sequel.VirtualFunc.Scan.{Handler, Registry, find_handler, register, unregister}

-- One name is not equal to two that differ.
equal-apart : (k u other : Bytes) → equal k u ≡ false → equal k other ≡ true → equal u other ≡ false
equal-apart k u other new here = elim (Bool-cases (equal u other)) [
  | inr differ ↦ differ
  | inl agree ↦
      let a = equal-eq k other here in
      let b = equal-eq u other agree in absurd (ground (arith, rw (a, b) at new, equal_refl other))
]

find-register :
    (name other : Bytes) (h : Handler) (vfs : Registry)
    → find_handler other (register name h vfs)
      ≡ (if equal (to_upper name) other then some h else find_handler other vfs)
unfolding find_handler register
find-register name other h [] = refl
find-register name other h ((k, g) ∷ vfs) = elim (Bool-cases (equal k (to_upper name))) [
  | inl same ↦
      let eq = equal-eq k (to_upper name) same in
      rw same (rw eq (ground (arith, Bool-cases (equal (to_upper name) other))))
  | inr new ↦ rw new (
      ground (
        arith,
        find-register name other h vfs,
        equal-apart k (to_upper name) other new,
        Bool-cases (equal k other),
        Bool-cases (equal (to_upper name) other),
      ))
]

find-unregister :
    (name other : Bytes) (vfs : Registry)
    → find_handler other (unregister name vfs)
      ≡ (if equal (to_upper name) other then none else find_handler other vfs)
unfolding find_handler unregister
find-unregister name other [] = ground (arith, Bool-cases (equal (to_upper name) other))
find-unregister name other ((k, g) ∷ vfs) = elim (Bool-cases (equal k (to_upper name))) [
  | inl same ↦
      let eq = equal-eq k (to_upper name) same in
      rw same (
        rw eq (
          ground (arith, find-unregister name other vfs, Bool-cases (equal (to_upper name) other))))
  | inr new ↦ rw new (
      ground (
        arith,
        find-unregister name other vfs,
        equal-apart k (to_upper name) other new,
        Bool-cases (equal k other),
        Bool-cases (equal (to_upper name) other),
      ))
]

-- Behind a registration a name finds the new handler if it is the registered name in upper case, and
-- what it found before otherwise; behind the removal of a name it finds nothing, or what it found before.
pub register-unregister :
    (name other : Bytes) (h : Handler) (vfs : Registry)
    → (find_handler other (register name h vfs)
        ≡ (if equal (to_upper name) other then some h else find_handler other vfs))
      × (find_handler other (unregister name vfs)
          ≡ (if equal (to_upper name) other then none else find_handler other vfs))
register-unregister name other h vfs =
    (find-register name other h vfs, find-unregister name other vfs)
