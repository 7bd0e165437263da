-- ===== src/Commands.antt =====
-- pkg/commands: the commands and what they share. A command that changes state is a function from the
-- state to a new state and a result; what was changed before an error stays changed. The operating
-- system's files are a parameter.
pub mod Root
pub mod Template
pub mod NodeConfig
pub mod Apply
pub mod Upgrade
pub mod Init
pub mod Imported
use talm.Base.{◌≡◌, refl, Bool, List, ◌++◌}
use talm.Base.Text.{Text}
use talm.Json.{Slice}
use talm.Base.Result.{Result, ok, err, panic, exit, Error}

-- `os.ReadFile` or `os.Open`, `os.Stat` without an error, `os.WriteFile`, `os.MkdirAll` and
-- `os.RemoveAll`.
pub record FileSystem : Type 1 where
  pub Disk : Type 0
  pub read_file : Disk → Text → Result Text
  pub exists : Disk → Text → Bool
  pub write_file : Text → Text → Disk → Disk × Result (Unit {0})
  pub mkdir_all : Text → Disk → Disk × Result (Unit {0})
  pub remove_all : Text → Disk → Disk × Result (Unit {0})

-- What a command asked of the nodes: the nodes, and the configuration, or the image and the flags
-- `preserve`, `stage` and `force`.
pub data Request : Type 0 where
  apply_configuration : Slice → Text → Request
  upgrade_with_options : Slice → Text → Bool → Bool → Bool → Request

-- `GlobalArgs` (nodes and endpoints), `templateCmdFlags.templateFiles`, the standard output, the files,
-- the requests that were sent, the last one first, and `common.SuppressErrors`.
pub record World (Disk : Type 0) : Type 0 where
  pub nodes : Slice
  pub endpoints : Slice
  pub template_files : Slice
  pub out : Text
  pub disk : Disk
  pub requests : List Request
  pub suppress_errors : Bool

abbrev pub Command : Type 0 → Type 0 → Type 0
Command D A = World D → World D × Result A

module _ {D : Type 0} {A B : Type 0} where
  -- The rest of a command behind a state and a result.
  abbrev pub continue : World D × Result A → (A → Command D B) → World D × Result B
  continue (w, ok a) f = f a w
  continue (w, err e) f = (w, err e)
  continue (w, panic) f = (w, panic)
  continue (w, exit out) f = (w, exit out)

  infixl 5 ◌>>=◌
  abbrev pub ◌>>=◌ : Command D A → (A → Command D B) → Command D B
  (m >>= f) w = continue (m w) f

  infixl 5 ◌>>◌
  abbrev pub ◌>>◌ : Command D A → Command D B → Command D B
  (m >> c) w = continue (m w) λ _. c

  -- A command that begins with a step succeeds only if the step and the rest do.
  pub continue-eq-ok :
      (m : World D × Result A) (f : A → Command D B) {b : B}
      → (continue m f).1 ≡ ok b
      → (a : A) × (m.1 ≡ ok a) × (continue m f ≡ f a m.0)
  continue-eq-ok (w, ok a) f h = (a, refl, refl)
  continue-eq-ok (w, err e) f h = cc
  continue-eq-ok (w, panic) f h = cc
  continue-eq-ok (w, exit out) f h = cc

  pub continue-ok :
      (m : World D × Result A) (f : A → Command D B) {a : A} → m.1 ≡ ok a → continue m f ≡ f a m.0
  continue-ok (w, ok a) f h = cc
  continue-ok (w, err e) f h = cc
  continue-ok (w, panic) f h = cc
  continue-ok (w, exit out) f h = cc

-- What a step and the rest keep in the state, the whole command keeps.
pub continue-keeps :
    {D A B : Type 0} (P : World D → Type 0) (m : World D × Result A) (f : A → Command D B)
    → P m.0
    → ((a : A) (w : World D) → P w → P (f a w).0)
    → P (continue m f).0
continue-keeps P (w, ok a) f h k = k a w h
continue-keeps P (w, err x) f h k = h
continue-keeps P (w, panic) f h k = h
continue-keeps P (w, exit out) f h k = h

pub continue_assoc :
    {D A B C : Type 0} (m : World D × Result A) (f : A → Command D B) (g : B → Command D C)
    → continue (continue m f) g ≡ continue m (λ a. λ w. continue (f a w) g)
continue_assoc (w, ok a) f g = refl
continue_assoc (w, err e) f g = refl
continue_assoc (w, panic) f g = refl
continue_assoc (w, exit out) f g = refl

abbrev pub done : {D A : Type 0} → A → Command D A
done a w = (w, ok a)

abbrev pub lift : {D A : Type 0} → Result A → Command D A
lift r w = (w, r)

abbrev pub fail : {D A : Type 0} → Error → Command D A
fail e w = (w, err e)

abbrev pub state : {D : Type 0} → Command D (World D)
state w = (w, ok w)

abbrev pub modify : {D : Type 0} → (World D → World D) → Command D (Unit {0})
modify f w = (f w, ok tt)

-- A change of the files.
abbrev pub on_disk : {D A : Type 0} → (D → D × Result A) → Command D A
on_disk f w = (record w { disk = (f w.disk).0 }, (f w.disk).1)

abbrev pub print : {D : Type 0} → Text → Command D (Unit {0})
print t w = (record w { out = w.out ++ t }, ok tt)

-- A file that was written is read back.
pub record IsFileSystem (fs : FileSystem) : Type 0 where
  pub read_file-write_file :
      (path content : Text) (disk : fs.Disk)
      → (fs.write_file path content disk).1 ≡ ok tt
      → fs.read_file (fs.write_file path content disk).0 path ≡ ok content
