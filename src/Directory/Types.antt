-- ===== src/Directory/Types.antt =====
-- File types: the two tables agree.
use schemesh.Base.{ℕ, ◌≡◌, refl, ◌*◌, ◌<◌}
use schemesh.Base.Bits.{agree, agree_below}
use schemesh.Directory.{stat_type, dirent_type}

-- The type in a directory entry and the format in a mode name the same file type: `st_mode >> 12` is
-- `d_type`.
pub stat_type-dirent_type : (d : ℕ) → d < 16 → stat_type (d * 4096) ≡ dirent_type d
unfolding stat_type dirent_type agree
stat_type-dirent_type = λ d h. agree_below (λ d. stat_type (d * 4096)) dirent_type 16 d refl h
