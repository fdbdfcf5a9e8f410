-- ===== src/Service/Files/Toy.antt =====
-- A file system with two files: one below the root, and one beside it that nobody can change.
use arduino_yun_bridge.Base.{
  inl, inr, Bool-cases, Bool-cases, ◌≡◌, ◌≢◌, refl, Bool, true, false, ◌&&◌, Option, none, some,
  List, [], ◌∷◌, arith, Bytes, Text, codes, text_eq, text_eq_iff, if◌then◌else◌, is_empty,
}
use arduino_yun_bridge.Service.Files.{FileSystem, Files}
use arduino_yun_bridge.Service.Files.Sandbox.{IsFileSystem}

abbrev is_inner : List Text → Bool
is_inner (a ∷ b ∷ []) = text_eq a (codes "r") && text_eq b (codes "f")
is_inner _ = false

abbrev pub outer : List Text
outer = codes "x" ∷ []

-- The disk is what the file r/f holds.
abbrev read_toy : List Text → Bytes → Option Bytes
read_toy (a ∷ []) d = if text_eq a (codes "x") then some (7 ∷ []) else none
read_toy q d = if is_inner q then some d else none

abbrev pub toy : FileSystem
toy = record {
  Disk = Bytes;
  resolve = λ p.
      if is_empty p
      then codes "r" ∷ []
      else if text_eq p (codes "../x")
      then outer
      else codes "r" ∷ p ∷ [];
  is_file = λ q d. is_inner q;
  exists = λ q d. is_inner q;
  read_bytes = read_toy;
  make_parents = λ q d. d;
  write_bytes = λ q bytes d. if is_inner q then some bytes else none;
  unlink = λ q d. none;
  disk_usage = λ d. some (1, 2);
}

inner_same : (p q : List Text) → is_inner p ≡ true → is_inner q ≡ true → q ≡ p
inner_same (a ∷ b ∷ []) (x ∷ y ∷ []) hp hq = ground (
  arith,
  text_eq_iff a (codes "r"),
  text_eq_iff b (codes "f"),
  text_eq_iff x (codes "r"),
  text_eq_iff y (codes "f"),
)
inner_same p q hp hq = absurd (ground arith)

read_other : (q : List Text) (d d' : Bytes) → is_inner q ≡ false → read_toy q d' ≡ read_toy q d
read_other (a ∷ []) d d' h = refl
read_other q d d' h = ground arith

written_other :
    (path q : List Text) (bytes d d' : Bytes)
    → (if is_inner path then some bytes else none) ≡ some d'
    → q ≢ path
    → read_toy q d' ≡ read_toy q d
written_other path q bytes d d' e other = elim (Bool-cases (is_inner q)) [
  | inl is ↦ absurd (other (inner_same path q (ground (arith, e)) is))
  | inr is ↦ read_other q d d' is
]

pub toy-IsFileSystem : IsFileSystem toy
toy-IsFileSystem = record {
  write-other = written_other;
  unlink-other = λ path q d d' e other. absurd (ground arith);
  parents-all = λ path q d. refl;
}

abbrev pub files_toy : Files toy
files_toy = record {
  disk = 1 ∷ 2 ∷ [];
  file_storage_bytes_used = 0;
  file_storage_limit_rejections = 0;
  file_packets = [];
  file_reports = [];
  pending_mcu_read = none;
  raised = false;
}
