-- ===== src/Path/Parse.antt =====
-- `Path::new`, `Path::join` and `Path::file_name` on Unix, on a path as the bytes it is written in.
use sync_plus.Base.{
  Bool, false, Option, none, some, List, [], ◌∷◌, ◌++◌, Text, if◌then◌else◌, ◌==◌, is_empty, nat_eq,
  text_eq,
}
use sync_plus.Base.Strings.{codes}
use sync_plus.Path.{Component, root_dir, cur_dir, parent_dir, normal, FilePath, component_eq}

abbrev pub has_root : Text → Bool
has_root [] = false
has_root (b ∷ bs) = b == b'/'

-- The parts between the separators.
abbrev split_parts : Text → Text → List Text
split_parts part [] = part ∷ []
split_parts part (b ∷ bs) =
    let split = part ∷ split_parts [] bs in
    let longer = split_parts (part ++ (b ∷ [])) bs in if b == b'/' then split else longer

abbrev part_components : List Text → List Component
part_components [] = []
part_components (part ∷ parts) =
    let rest = part_components parts in
    if is_empty part
    then rest
    else if part == codes "."
    then rest
    else if part == codes ".."
    then parent_dir ∷ rest
    else normal part ∷ rest

-- A leading `.` is kept where no root stands before it.
abbrev leading_components : List Text → List Component
leading_components [] = []
leading_components (part ∷ parts) =
    if part == codes "." then cur_dir ∷ part_components parts else part_components (part ∷ parts)

-- `Path::components`.
unfoldable pub parse_components : Text → List Component
parse_components text =
    if has_root text
    then root_dir ∷ part_components (split_parts [] text)
    else leading_components (split_parts [] text)

abbrev pub parse_path : Text → FilePath
parse_path text = record { components = parse_components text }

abbrev pub ends_with_separator : Text → Bool
ends_with_separator [] = false
ends_with_separator (b ∷ []) = b == b'/'
ends_with_separator (b ∷ c ∷ bs) = ends_with_separator (c ∷ bs)

-- `Path::join`.
unfoldable pub join : Text → Text → Text
join base path =
    if has_root path
    then path
    else if is_empty base
    then path
    else if ends_with_separator base
    then base ++ path
    else base ++ (b'/' ∷ path)

abbrev pub last_name : List Component → Option Text
last_name [] = none
last_name (normal part ∷ []) = some part
last_name (c ∷ []) = none
last_name (c ∷ d ∷ cs) = last_name (d ∷ cs)

-- `Path::file_name`.
abbrev pub file_name : Text → Option Text
file_name text = last_name (parse_components text)
