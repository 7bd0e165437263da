-- ===== src/Tests/Fixtures.antt =====
-- Concrete files, clients and Talos packages for the tests.
use talm.Base.{
  ℕ, ◌≡◌, ◌≢◌, refl, Bool, true, false, Bool-cases, inl, inr, Option, none, some, List, [], ◌∷◌,
  ◌++◌, ◌==◌, ==_iff, if◌then◌else◌, sym, ap, ◌∙◌, arith,
}
use talm.Base.Text.{Text, codes, text_eq}
use talm.Base.Text.Laws.{text_eq_iff}
use talm.Base.Dict.{Dict, lookup, insert, lookup-insert, lookup-insert_self}
use talm.Base.Result.{Result, ok, errorf, from_option}
use talm.Engine.Values.{end, field, text, put}
use talm.Engine.Load.{Sources}
use talm.Engine.Bundle.{Talos}
use talm.Engine.Bundle.Laws.{IsTalos}
use talm.Engine.Render.{MapCodec}
use talm.Engine.Template.{Charts}
use talm.Yaml.{node, scalar, document, nil, cons, no_attributes, no_remarks, value}
use talm.Yaml.Diff.{Codec}
use talm.Commands.{FileSystem, IsFileSystem}
use talm.Commands.Root.{Clients}
use talm.Commands.Init.Laws.{KeepsFiles}

abbrev is_there : Option Text → Bool
is_there none = false
is_there (some t) = true

-- A disk is the texts of its files; directories need not be made.
abbrev pub files : FileSystem
files = record {
  Disk = Dict Text;
  read_file = λ disk path. from_option (errorf "no such file" (path ∷ [])) (lookup path disk);
  exists = λ disk path. is_there (lookup path disk);
  write_file = λ path content disk. (insert path content disk, ok tt);
  mkdir_all = λ path disk. (disk, ok tt);
  remove_all = λ path disk. ([], ok tt);
}

pub files-IsFileSystem : IsFileSystem files
files-IsFileSystem = record {
  read_file-write_file = λ path content disk h. rw (lookup-insert_self path content disk) refl;
}

lookup-other :
    (file path content : Text) (disk : Dict Text)
    → is_there (lookup file disk) ≡ true
    → is_there (lookup path disk) ≡ false
    → lookup file (insert path content disk) ≡ lookup file disk
lookup-other file path content disk h k = elim (Bool-cases (text_eq path file)) [
  | inl same ↦
      absurd (
        differs (sym (ap is_there (ap (λ p. lookup p disk) ((text_eq_iff path file).0 same))) ∙ k)
          h)
  | inr other ↦ rw (lookup-insert path file content disk, other)
]
  where
    differs : {b : Bool} → b ≡ false → b ≡ true → ⊥
    differs p q = cc

pub files-KeepsFiles : KeepsFiles files
files-KeepsFiles = record {
  write_file-Kept = λ file path content disk h k. (
    rw (lookup-other file path content disk h k) h,
    rw (lookup-other file path content disk h k) refl,
  );
  mkdir_all-Kept = λ file path disk h. (h, refl);
  exists-mkdir_all-dir = λ path disk h. h;
}

-- Clients know no config context; a node that is reached answers.
abbrev pub local_clients : Clients
local_clients = record {
  Client = Unit;
  dial = λ nodes endpoints. ok tt;
  dial_maintenance = λ nodes endpoints fingerprints. ok tt;
  context_nodes = λ cli. none;
}

abbrev patched_type : List Text → ℕ → ℕ
patched_type [] m = m
patched_type (p ∷ ps) m = if text_eq p (codes "@worker.yaml") then 1 else m

-- A bundle is the machine type of its control plane config, and a text.
abbrev pub patched : List Text → Bool → Bool → ℕ × Text → ℕ × Text
patched ps true worker (m, x) = (patched_type ps m, x ++ codes "p")
patched ps false worker (m, x) = (m, x ++ codes "w")

abbrev pub small_talos : Talos
small_talos = record {
  Contract = Unit;
  Secrets = Unit;
  Patch = Text;
  Bundle = ℕ × Text;
  Machine = ℕ;
  type_unknown = 0;
  type_worker = 1;
  type_control_plane = 2;
  same_machine = ◌==◌;
  machine_text = λ m. [];
  parse_contract_from_version = λ v. ok tt;
  load_secrets_bundle = λ path. ok tt;
  load_patches = λ ps. ok ps;
  new_bundle = λ i. ok (2, codes "b");
  apply_patches = λ ps control_plane worker b. ok (patched ps control_plane worker b);
  machine_type = λ b. b.0;
  cluster_name = λ b. [];
  endpoint = λ b. [];
  serialize = λ m b. ok (b.1);
}

first_type : Result (ℕ × Text) → ℕ
first_type (ok b) = b.0
first_type _ = 0

one-ne-two : ◌≢◌ {A = ℕ} 1 2
one-ne-two h = omega arith

pub small_talos-IsTalos : IsTalos small_talos
unfolding first_type
small_talos-IsTalos = record {
  same_machine_iff = ==_iff;
  worker-ne-control_plane = one-ne-two;
  machine_type-new_bundle = λ i b h. sym (ap first_type h);
  machine_type-apply_patches = λ ps worker b c h. sym (ap first_type h);
}

-- A text is a document of one scalar under a comment.
abbrev pub small_yaml : Codec
small_yaml = record {
  unmarshal = λ t. ok (
      node document [] no_attributes no_remarks
        (cons (node scalar t no_attributes (record { head = t; line = []; foot = [] }) nil) nil));
  encode = λ n. ok (value n);
}

abbrev pub small_maps : MapCodec
small_maps = record { unmarshal_map = λ t. ok end; marshal_map = λ m. ok [] }

-- A YAML file has the value `1` under its name; a flag sets its text.
abbrev pub small_sources : Sources
small_sources = record {
  read_file = λ path. ok path;
  unmarshal_yaml = λ t. ok (field t (text (codes "1")) end);
  unmarshal_json = λ t. ok (field t (text (codes "2")) end);
  parse_into = λ t m. ok (put t (text (codes "3")) m);
  parse_into_string = λ t m. ok (put t (text (codes "4")) m);
}

abbrev pub rendered_texts : Dict Text
rendered_texts = (codes "c/a.yaml", codes "x") ∷ ((codes "c/b.yaml", codes "y") ∷ [])

-- One chart with two templates.
abbrev pub small_charts : Charts
small_charts = record {
  Chart = Unit;
  name = λ c. codes "c";
  chart_values = λ c. end;
  load_dir = λ path. ok tt;
  get_working_dir = ok (codes "/");
  fail_if_multi_nodes = ok tt;
  render_chart = λ with_lookup c values. ok rendered_texts;
}
