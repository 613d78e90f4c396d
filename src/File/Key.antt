-- ===== src/File/Key.antt =====
-- `getCacheKey` of src/VirtualFile.cpp.
use sql_fuse.Base.{Bool, Text, [], codes, false, if◌then◌else◌, is_empty, true, ◌++◌}
use sql_fuse.Router.Types.{FileFormat, ParsedPath, format_to_extension}

has_format : FileFormat → Bool
has_format FileFormat.none = false
has_format _ = true

unfoldable pub get_cache_key : ParsedPath → Text
unfolding has_format
get_cache_key p =
    let object_part = if is_empty p.object_name then [] else codes "/" ++ p.object_name in
    let format_part = if has_format p.format then format_to_extension p.format else [] in
    let row_part = if is_empty p.row_id then [] else codes "/rows/" ++ p.row_id in
    p.database ++ (object_part ++ (format_part ++ row_part))
