-- ===== src/File/Buffer.antt =====
-- `write` and `truncate` of src/VirtualFile.cpp. An offset is below 2 ^ 63 and a size below 2 ^ 31,
-- so their sum does not wrap.
use sql_fuse.Base.{Text, drop, if◌then◌else◌, length, ltb, replicate, take, true, ℕ, ◌++◌, ◌+◌, ◌-◌}
use sql_fuse.Router.Types.{is_read_only}
use sql_fuse.File.Types.{Reply, ok, err, erofs, VirtualFile}

-- `std::string::resize`.
unfoldable pub resize : ℕ → Text → Text
resize n s = take n s ++ replicate (n - length s) 0

-- `memcpy(s.data() + offset, bytes, size)`.
unfoldable pub overwrite : ℕ → Text → Text → Text
overwrite offset bytes s = take offset s ++ (bytes ++ drop (offset + length bytes) s)

unfoldable pub grow : ℕ → Text → Text
unfolding resize
grow n s = if ltb (length s) n then resize n s else s

unfoldable pub write : Text → ℕ → VirtualFile → VirtualFile × Reply ℕ
unfolding overwrite grow
write bytes offset f = if is_read_only f.path then (f, err erofs) else (
  record f {
    write_buffer = overwrite offset bytes (grow (offset + length bytes) f.write_buffer);
    modified = true;
  },
  ok (length bytes),
)

unfoldable pub truncate : ℕ → VirtualFile → VirtualFile × Reply (Unit {0})
unfolding resize
truncate size f =
    if is_read_only f.path
    then (f, err erofs)
    else (record f { write_buffer = resize size f.write_buffer; modified = true }, ok tt)
