-- ===== src/Raft/Tests/Formats.antt =====
-- A concrete format for snapshots, in the place of `serde_json`: each value is written before the
-- rest of the text, and read back from it.
use vraftls.Prelude.{
  ℕ, zero, suc, ◌≡◌, refl, Bool, true, false, Option, none, some, List, [], ◌∷◌, length, Text,
  arith,
}
use vraftls.Vfs.FileContent.{FileContent, loaded, on_disk, remote, not_loaded}
use vraftls.Vfs.LineEnding.{LineEnding, lf, cr_lf, cr}
use vraftls.Vfs.VfsPath.{VfsPath}
use vraftls.Vfs.VfsFile.{VfsFile, FileMetadata}

pub record Format (A : Type 0) : Type 0 where
  pub put : A → Text → Text
  pub get : Text → Option (A × Text)
  pub back : (a : A) (rest : Text) → get (put a rest) ≡ some (a, rest)

abbrev and_then : {A B : Type 0} → Option (A × Text) → (A → Text → Option B) → Option B
and_then none f = none
and_then (some (a, rest)) f = f a rest

abbrev get_nat : Text → Option (ℕ × Text)
get_nat [] = none
get_nat (n ∷ rest) = some (n, rest)

abbrev pub nat_format : Format ℕ
nat_format = record { put = λ n rest. n ∷ rest; get = get_nat; back = λ n rest. refl }

module _ {A B : Type 0} (f : Format A) (g : Format B) where
  pub get_pair : Text → Option ((A × B) × Text)
  get_pair t = and_then (f.get t) λ a t'. and_then (g.get t') λ b t''. some ((a, b), t'')

  pub get-put_pair :
      (p : A × B) (rest : Text) → get_pair (f.put p.0 (g.put p.1 rest)) ≡ some (p, rest)
  unfolding get_pair
  get-put_pair p rest = ground (arith, f.back p.0 (g.put p.1 rest), g.back p.1 rest)

  abbrev pub pair_format : Format (A × B)
  pair_format = record {
    put = λ p rest. f.put p.0 (g.put p.1 rest);
    get = get_pair;
    back = get-put_pair;
  }

-- a type that another one represents
module _ {A B : Type 0} (f : Format A) (to : A → B) (from : B → A)
    (same : (b : B) → to (from b) ≡ b) where
  pub get_as : Text → Option (B × Text)
  get_as t = and_then (f.get t) λ a t'. some (to a, t')

  pub get-put_as : (b : B) (rest : Text) → get_as (f.put (from b) rest) ≡ some (b, rest)
  unfolding get_as
  get-put_as b rest = ground (arith, f.back (from b) rest, same b)

  abbrev pub as_format : Format B
  as_format = record { put = λ b. f.put (from b); get = get_as; back = get-put_as }

module _ {A : Type 0} (f : Format A) where
  abbrev put_all : List A → Text → Text
  put_all [] rest = rest
  put_all (x ∷ xs) rest = f.put x (put_all xs rest)

  abbrev get_all : ℕ → Text → Option (List A × Text)
  get_all zero t = some ([], t)
  get_all (suc n) t =
      and_then (f.get t) λ x t'. and_then (get_all n t') λ xs t''. some (x ∷ xs, t'')

  get-put_all :
      (xs : List A) (rest : Text) → get_all (length xs) (put_all xs rest) ≡ some (xs, rest)
  get-put_all [] rest = refl
  get-put_all (x ∷ xs) rest = ground (arith, f.back x (put_all xs rest), get-put_all xs rest)

  pub get_list : Text → Option (List A × Text)
  get_list [] = none
  get_list (n ∷ t) = get_all n t

  pub get-put_list :
      (xs : List A) (rest : Text) → get_list (length xs ∷ put_all xs rest) ≡ some (xs, rest)
  unfolding get_list
  get-put_list xs rest = get-put_all xs rest

  abbrev pub list_format : Format (List A)
  list_format = record {
    put = λ xs rest. length xs ∷ put_all xs rest;
    get = get_list;
    back = get-put_list;
  }

  abbrev to_option : List A → Option A
  to_option [] = none
  to_option (x ∷ xs) = some x

  abbrev from_option : Option A → List A
  from_option none = []
  from_option (some x) = x ∷ []

  pub same_option : (x : Option A) → to_option (from_option x) ≡ x
  same_option none = refl
  same_option (some x) = refl

  abbrev pub option_format : Format (Option A)
  option_format = as_format list_format to_option from_option same_option

abbrev pub text_format : Format Text
text_format = list_format nat_format

abbrev to_bool : ℕ → Bool
to_bool zero = false
to_bool (suc n) = true

abbrev from_bool : Bool → ℕ
from_bool false = 0
from_bool true = 1

pub same_bool : (b : Bool) → to_bool (from_bool b) ≡ b
same_bool false = refl
same_bool true = refl

abbrev to_ending : ℕ → LineEnding
to_ending zero = lf
to_ending (suc zero) = cr_lf
to_ending (suc (suc n)) = cr

abbrev from_ending : LineEnding → ℕ
from_ending lf = 0
from_ending cr_lf = 1
from_ending cr = 2

pub same_ending : (e : LineEnding) → to_ending (from_ending e) ≡ e
same_ending lf = refl
same_ending cr_lf = refl
same_ending cr = refl

abbrev to_content : ℕ × (Text × (ℕ × (ℕ × ℕ))) → FileContent
to_content (zero, (s, (node, (offset, len)))) = loaded s
to_content (suc zero, (s, (node, (offset, len)))) = on_disk s
to_content (suc (suc zero), (s, (node, (offset, len)))) = remote node offset len
to_content (suc (suc (suc n)), (s, (node, (offset, len)))) = not_loaded

abbrev from_content : FileContent → ℕ × (Text × (ℕ × (ℕ × ℕ)))
from_content (loaded s) = (0, (s, (0, (0, 0))))
from_content (on_disk s) = (1, (s, (0, (0, 0))))
from_content (remote node offset len) = (2, ([], (node, (offset, len))))
from_content not_loaded = (3, ([], (0, (0, 0))))

pub same_content : (c : FileContent) → to_content (from_content c) ≡ c
same_content (loaded s) = refl
same_content (on_disk s) = refl
same_content (remote node offset len) = refl
same_content not_loaded = refl

abbrev content_format : Format FileContent
content_format =
    as_format
      (pair_format nat_format
        (pair_format text_format (pair_format nat_format (pair_format nat_format nat_format))))
      to_content from_content same_content

abbrev metadata_format : Format FileMetadata
metadata_format =
    as_format
      (pair_format (as_format nat_format to_bool from_bool same_bool) (
        pair_format (option_format text_format) (
          pair_format (as_format nat_format to_ending from_ending same_ending)
            (list_format (pair_format text_format text_format)))))
      (λ (read_only, (encoding, (line_ending, attributes))). record {
        read_only = read_only;
        encoding = encoding;
        line_ending = line_ending;
        attributes = attributes;
      })
      (λ m. (m.read_only, (m.encoding, (m.line_ending, m.attributes)))) (λ m. refl)

abbrev path_format : Format VfsPath
path_format =
    as_format
      (pair_format (option_format nat_format) (pair_format (list_format text_format) text_format))
      (λ (client_id, (components, original)). record {
        client_id = client_id;
        components = components;
        original = original;
      })
      (λ p. (p.client_id, (p.components, p.original))) (λ p. refl)

abbrev pub file_format : Format VfsFile
file_format =
    as_format
      (pair_format nat_format (
        pair_format path_format (
          pair_format nat_format (
            pair_format content_format (
              pair_format nat_format
                (pair_format nat_format (pair_format nat_format metadata_format)))))))
      (λ (id, (path, (version, (content, (checksum, (last_modified, (group, metadata))))))).
        record {
          id = id;
          path = path;
          version = version;
          content = content;
          checksum = checksum;
          last_modified = last_modified;
          owning_group = group;
          metadata = metadata;
        })
      (λ f. (
        f.id,
        (
          f.path,
          (f.version, (f.content, (f.checksum, (f.last_modified, (f.owning_group, f.metadata))))),
        ),
      ))
      (λ f. refl)
