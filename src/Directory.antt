-- ===== src/Directory.antt =====
-- posix/posix.c: file types and the listing of a directory. The directory is what `opendir` and
-- `readdir` give, and `fstatat` the mode of a file, symbolic links followed.
pub mod Types
pub mod Filter
mod Tests
use schemesh.Base.{
  ℕ, zero, suc, ◌+◌, ◌-◌, bit_and, Bool, true, false, ◌&&◌, ◌||◌, not, Option, none, some, List, [],
  ◌∷◌, ◌++◌, ltb, leb, ◌==◌, if◌then◌else◌, length, take, drop,
}
use schemesh.Base.Int.{ℤ, pos, negsuc, neg, eq_ℤ}
use schemesh.Scheme.{Ptr, snil, fixnum, bytevector, string, pair}
use schemesh.Bytevector.{memcmp}
use schemesh.Strings.{sstring_utf8b}
use schemesh.Posix.{einval}
use schemesh.Posix.Redirect.{ends_in_zero}

-- `e_type`: e_unknown 0, e_blockdev 1, e_chardev 2, e_dir 3, e_fifo 4, e_file 5, e_socket 6, e_symlink 7
abbrev pub e_dir : ℕ
e_dir = 3

-- `switch (s_type)` on S_IFBLK, S_IFCHR, S_IFDIR, S_IFIFO, S_IFREG, S_IFSOCK, S_IFLNK
unfoldable pub stat_type : ℕ → ℕ
stat_type s_type =
    if s_type == 0o060000
    then 1
    else if s_type == 0o020000
    then 2
    else if s_type == 0o040000
    then 3
    else if s_type == 0o010000
    then 4
    else if s_type == 0o100000
    then 5
    else if s_type == 0o140000
    then 6
    else if s_type == 0o120000
    then 7
    else 0

abbrev pub dt_unknown : ℕ
dt_unknown = 0

abbrev pub dt_lnk : ℕ
dt_lnk = 10

-- `switch (d_type)` on DT_BLK, DT_CHR, DT_DIR, DT_FIFO, DT_LNK, DT_REG, DT_SOCK
unfoldable pub dirent_type : ℕ → ℕ
dirent_type d_type =
    if d_type == 6
    then 1
    else if d_type == 2
    then 2
    else if d_type == 4
    then 3
    else if d_type == 1
    then 4
    else if d_type == dt_lnk
    then 7
    else if d_type == 8
    then 5
    else if d_type == 12
    then 6
    else 0

-- `mode & S_IFMT`
abbrev pub format_of : ℕ → ℕ
format_of mode = bit_and mode 0o170000

pub record Entry : Type 0 where
  pub name : List ℕ
  pub d_type : ℕ

unfoldable pub dirent_type2 : (List ℕ → Option ℕ) → List ℕ → Bool → ℕ → ℕ
unfolding stat_type dirent_type
dirent_type2 fstatat name keep_symlinks d_type =
    let plain = dirent_type d_type in
    if not keep_symlinks && (d_type == dt_lnk || d_type == dt_unknown)
    then (elim (fstatat name) [ some mode ↦ stat_type (format_of mode) | none ↦ plain ])
    else plain

pub record DirectoryListOpts : Type 0 where
  pub prefix : List ℕ
  pub suffix : List ℕ
  pub prefix_has_slash : Bool
  pub suffix_has_slash : Bool
  pub keep_symlinks : Bool
  pub ret_append_slash : Bool
  pub ret_bytes : Bool
  pub ret_types : Bool

-- `bytes[len - 1] == '/'` of bytes that are not empty, and the bytes without that one.
abbrev pub ends_in_slash : List ℕ → Bool
ends_in_slash [] = false
ends_in_slash (b ∷ []) = b == b'/'
ends_in_slash (b ∷ c ∷ bs) = ends_in_slash (c ∷ bs)

abbrev pub without_slash : List ℕ → List ℕ
without_slash bytes = if ends_in_slash bytes then take (length bytes - 1) bytes else bytes

-- `options & o_symlinks`, `o_append_slash`, `o_bytes`, `o_types`
unfoldable pub directory_list_opts : List ℕ → List ℕ → ℕ → DirectoryListOpts
directory_list_opts prefix suffix options = record {
  prefix = without_slash prefix;
  suffix = without_slash suffix;
  prefix_has_slash = ends_in_slash prefix;
  suffix_has_slash = ends_in_slash suffix;
  keep_symlinks = not (bit_and options 1 == 0);
  ret_append_slash = not (bit_and options 2 == 0);
  ret_bytes = not (bit_and options 4 == 0);
  ret_types = not (bit_and options 8 == 0);
}

-- `memcmp(a, b, n) != 0`
abbrev pub differ : List ℕ → List ℕ → ℕ → Bool
differ a b n = not (eq_ℤ (memcmp a b n) (pos 0))

-- The tests of `c_directory_list1` on a name, in their order: true is `return ret`.
unfoldable pub ignored : DirectoryListOpts → List ℕ → Bool
ignored opts name =
    let namelen = length name in
    let prefixlen = length opts.prefix in
    let suffixlen = length opts.suffix in
    (opts.prefix_has_slash && not (namelen == prefixlen))
    || (not (prefixlen == 0) && (ltb namelen prefixlen || differ name opts.prefix prefixlen))
    || (not (suffixlen == 0)
        && (ltb namelen suffixlen
            || differ (drop (namelen - suffixlen) name) opts.suffix suffixlen))

module _ (fstatat : List ℕ → Option ℕ) where
  -- The bytes of the filename that is added, and its type.
  unfoldable pub directory_list1_name : DirectoryListOpts → Entry → Option (List ℕ × ℕ)
  unfolding ignored dirent_type2
  directory_list1_name opts entry =
      let type = dirent_type2 fstatat entry.name opts.keep_symlinks entry.d_type in
      let name_has_slash = type == e_dir && opts.ret_append_slash in
      if ignored opts entry.name
      then none
      else if name_has_slash
      then some (entry.name ++ (b'/' ∷ []), type)
      else if opts.prefix_has_slash || opts.suffix_has_slash
      then none
      else some (entry.name, type)

  module _ (smake_string : ℤ → Option (List ℕ)) where
    unfoldable pub filename_of : DirectoryListOpts → List ℕ → Option Ptr
    filename_of opts bytes =
        if opts.ret_bytes
        then some (bytevector bytes)
        else (elim (sstring_utf8b smake_string bytes (some (length bytes))) [
          | none ↦ none
          | some str ↦ some (string str)
        ])

    -- The new list; none where making a string raised a condition.
    unfoldable pub directory_list1 : DirectoryListOpts → Entry → Ptr → Option Ptr
    unfolding directory_list1_name filename_of
    directory_list1 opts entry ret = elim (directory_list1_name opts entry) [
      | none ↦ some ret
      | some (bytes, type) ↦ elim (filename_of opts bytes) [
        | none ↦ none
        | some filename ↦
            some (pair (if opts.ret_types then pair filename (fixnum (pos type)) else filename) ret)
      ]
    ]

    -- `while ((entry = readdir(dir)) != NULL)`
    unfoldable pub directory_loop : DirectoryListOpts → List Entry → Ptr → Option Ptr
    unfolding directory_list1
    directory_loop opts [] ret = some ret
    directory_loop opts (entry ∷ entries) ret = elim (directory_list1 opts entry ret) [
      | none ↦ none
      | some ret' ↦ directory_loop opts entries ret'
    ]

    -- `opendir` gives the entries, or fails with an errno.
    unfoldable pub directory_list :
        (List ℕ → Option (List Entry)) → ℕ → Ptr → Ptr → Ptr → ℕ → Option Ptr
    unfolding directory_list_opts directory_loop
    directory_list opendir errno (bytevector dirpath) (bytevector prefix) (bytevector suffix)
          options =
        let opts = directory_list_opts prefix suffix options in
        if not (ends_in_zero dirpath)
        then some (fixnum (neg einval))
        else if not opts.ret_append_slash && (opts.prefix_has_slash || opts.suffix_has_slash)
        then some snil
        else (elim (opendir dirpath) [
          | none ↦ some (fixnum (neg errno))
          | some entries ↦ directory_loop opts entries snil
        ])
    directory_list opendir errno _ _ _ options = some (fixnum (neg einval))
