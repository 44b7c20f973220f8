-- ===== src/Format/Mode.antt =====
-- filesystem.go: Unix modes and Go's os.FileMode, each as its bits.
pub mod RoundTrip
use desync.Common.{ℕ, Bool, not, bit_and, bit_or, ◌==◌, if◌then◌else◌}

-- The types and flags of a Unix mode (package syscall).
abbrev pub s_ifmt : ℕ
s_ifmt = 0xf000

abbrev pub s_ifsock : ℕ
s_ifsock = 0xc000

abbrev pub s_iflnk : ℕ
s_iflnk = 0xa000

abbrev pub s_ifreg : ℕ
s_ifreg = 0x8000

abbrev pub s_ifblk : ℕ
s_ifblk = 0x6000

abbrev pub s_ifdir : ℕ
s_ifdir = 0x4000

abbrev pub s_ifchr : ℕ
s_ifchr = 0x2000

abbrev pub s_ififo : ℕ
s_ififo = 0x1000

abbrev s_isuid : ℕ
s_isuid = 0x800

abbrev s_isgid : ℕ
s_isgid = 0x400

abbrev s_isvtx : ℕ
s_isvtx = 0x200

-- The bits of an os.FileMode.
abbrev mode_dir : ℕ
mode_dir = 0x8000_0000

abbrev pub mode_symlink : ℕ
mode_symlink = 0x800_0000

abbrev pub mode_device : ℕ
mode_device = 0x400_0000

abbrev mode_named_pipe : ℕ
mode_named_pipe = 0x200_0000

abbrev mode_socket : ℕ
mode_socket = 0x100_0000

abbrev mode_setuid : ℕ
mode_setuid = 0x80_0000

abbrev mode_setgid : ℕ
mode_setgid = 0x40_0000

abbrev mode_char_device : ℕ
mode_char_device = 0x20_0000

abbrev mode_sticky : ℕ
mode_sticky = 0x10_0000

-- Directory, link, device, pipe, socket, character device and irregular file.
abbrev mode_type : ℕ
mode_type = 0x8f28_0000

abbrev has : ℕ → ℕ → Bool
has mode flag = not (bit_and mode flag == 0)

abbrev set_if : Bool → ℕ → ℕ → ℕ
set_if b flag mode = if b then bit_or mode flag else mode

type_to_filemode : ℕ → ℕ → ℕ
type_to_filemode t fm =
    if t == s_ifblk
    then bit_or fm mode_device
    else if t == s_ifchr
    then bit_or fm (bit_or mode_device mode_char_device)
    else if t == s_ifdir
    then bit_or fm mode_dir
    else if t == s_ififo
    then bit_or fm mode_named_pipe
    else if t == s_iflnk
    then bit_or fm mode_symlink
    else if t == s_ifsock
    then bit_or fm mode_socket
    else fm

unfoldable pub stat_mode_to_filemode : ℕ → ℕ
unfolding type_to_filemode
stat_mode_to_filemode mode =
    let fm : ℕ = type_to_filemode (bit_and mode s_ifmt) (bit_and mode 0o777) in
    let fm1 : ℕ = set_if (has mode s_isgid) mode_setgid fm in
    let fm2 : ℕ = set_if (has mode s_isuid) mode_setuid fm1 in
    set_if (has mode s_isvtx) mode_sticky fm2

type_to_stat_mode : ℕ → ℕ → ℕ
type_to_stat_mode m o =
    if m == mode_device
    then bit_or o s_ifblk
    else if m == bit_or mode_device mode_char_device
    then bit_or o s_ifchr
    else if m == mode_dir
    then bit_or o s_ifdir
    else if m == mode_named_pipe
    then bit_or o s_ififo
    else if m == mode_symlink
    then bit_or o s_iflnk
    else if m == mode_socket
    then bit_or o s_ifsock
    else bit_or o s_ifreg

unfoldable pub filemode_to_stat_mode : ℕ → ℕ
unfolding type_to_stat_mode
filemode_to_stat_mode mode =
    let o : ℕ = type_to_stat_mode (bit_and mode mode_type) (bit_and mode 0o777) in
    let o1 : ℕ = set_if (has mode mode_setuid) s_isuid o in
    let o2 : ℕ = set_if (has mode mode_setgid) s_isgid o1 in
    set_if (has mode mode_sticky) s_isvtx o2
