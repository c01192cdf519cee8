-- ===== src/Command.antt =====
-- The shell's commands, src/shell/command.c: finding the command of a line, and the commands on
-- files, addresses and sounds.
pub mod Parse
pub mod Files
mod Tests
use hz_os.Base.{
  ℕ, zero, suc, ◌+◌, ◌-◌, ◌*◌, ◌%◌, ◌^◌, Bool, true, false, ◌&&◌, ◌||◌, Option, none, some, List,
  [], ◌∷◌, ◌++◌, length, take, ltb, leb, ◌==◌, if◌then◌else◌,
}
use hz_os.Base.Text.{codes}
use Prim.Native.Nat.{bit_or}
use hz_os.Fs.{Fs, fs_mkdir, fs_mkfile, fs_write_file, same_name}
use hz_os.Fs.Session.{Listing, fs_list, fs_read, fs_chdir, fs_get_cwd}
use hz_os.Net.{htonl}

pub data Command : Type 0 where
  help clear about osfetch lf echo cat pwd cd mkdir touch write : Command
  ext2mount ext2info ext2lsroot gui files lspci reboot shutdown makesamplepng exec : Command
  disktest diskinfo netinfo ping soundtest : Command

-- What kprintf prints.
pub data Message : Type 0 where
  unknown_command : List ℕ → Message
  usage : Command → Message
  path_required : Command → Message
  cannot_open : List ℕ → Message
  cannot_cd : List ℕ → Message
  cwd : List ℕ → Message
  cannot_create : Command → List ℕ → Message
  write_failed : List ℕ → Message
  written : ℕ → List ℕ → Message
  sample_png : Bool → Message

-- What a command does besides the file system, in its order. `chars` are passed to terminal_putc;
-- `call` is the function of a command that is not modelled here, with its argument.
pub data Effect : Type 0 where
  message : Message → Effect
  chars : List ℕ → Effect
  listing : Listing → Effect
  arp_send_request : ℕ → Effect
  hda_play_sine : ℕ → ℕ → Effect
  file_browser_create : List ℕ → Effect
  call : Command → List ℕ → Effect

pub record Shell : Type 0 where
  pub fs : Fs
  pub effects : List Effect

abbrev pub commands : List (List ℕ × Command)
commands =
    (codes "help", help)
    ∷ (codes "clear", clear)
    ∷ (codes "about", about)
    ∷ (codes "osfetch", osfetch)
    ∷ (codes "lf", lf)
    ∷ (codes "echo", echo)
    ∷ (codes "cat", cat)
    ∷ (codes "pwd", pwd)
    ∷ (codes "cd", cd)
    ∷ (codes "mkdir", mkdir)
    ∷ (codes "touch", touch)
    ∷ (codes "write", write)
    ∷ (codes "ext2mount", ext2mount)
    ∷ (codes "ext2info", ext2info)
    ∷ (codes "ext2lsroot", ext2lsroot)
    ∷ (codes "gui", gui)
    ∷ (codes "files", files)
    ∷ (codes "lspci", lspci)
    ∷ (codes "reboot", reboot)
    ∷ (codes "shutdown", shutdown)
    ∷ (codes "makesamplepng", makesamplepng)
    ∷ (codes "exec", exec)
    ∷ (codes "disktest", disktest)
    ∷ (codes "diskinfo", diskinfo)
    ∷ (codes "netinfo", netinfo)
    ∷ (codes "ping", ping)
    ∷ (codes "soundtest", soundtest)
    ∷ []

abbrev pub is_blank : ℕ → Bool
is_blank c = c == b' ' || c == 9

unfoldable pub skip_spaces : List ℕ → List ℕ
skip_spaces [] = []
skip_spaces (c ∷ cs) = let rest = skip_spaces cs in if is_blank c then rest else c ∷ cs

-- The loops that skip only ' '.
unfoldable pub skip_plain : List ℕ → List ℕ
skip_plain [] = []
skip_plain (c ∷ cs) = let rest = skip_plain cs in if c == b' ' then rest else c ∷ cs

-- The characters in front of the first one that ends a word, and the rest from there on.
unfoldable pub split_word : (ℕ → Bool) → List ℕ → List ℕ × List ℕ
split_word ends [] = ([], [])
split_word ends (c ∷ cs) =
    let (word, rest) = split_word ends cs in if ends c then ([], c ∷ cs) else (c ∷ word, rest)

unfoldable pub find_command : List (List ℕ × Command) → List ℕ → Option Command
find_command [] name = none
find_command ((cname, fn) ∷ table) name =
    let rest = find_command table name in if same_name cname name then some fn else rest

abbrev pub emit : Shell → Effect → Shell
emit sh e = record sh { effects = sh.effects ++ (e ∷ []) }

-- The `%s` of a failed call, or nothing.
abbrev pub made : Shell → Command → List ℕ → Bool × Fs → Shell
made sh fn path (true, fs) = record sh { fs = fs }
made sh fn path (false, fs) = emit (record sh { fs = fs }) (message (cannot_create fn path))

abbrev pub wrote : Shell → List ℕ → List ℕ → Bool × Fs → Shell
wrote sh path content (true, fs) =
    emit (record sh { fs = fs }) (message (written (length content) path))
wrote sh path content (false, fs) = emit (record sh { fs = fs }) (message (write_failed path))

unfoldable pub cmd_lf : Shell → List ℕ → Shell
cmd_lf sh args =
    let path = skip_spaces args in
    emit sh (listing (fs_list sh.fs (if length path == 0 then codes "/" else path)))

-- `ext2` gives what fs_read finds on an ext2 volume.
unfoldable pub cmd_cat : Shell → (List ℕ → Option (List ℕ)) → List ℕ → Shell
cmd_cat sh ext2 args =
    let path = skip_spaces args in
    if length path == 0
    then emit sh (message (path_required cat))
    else elim (fs_read sh.fs (ext2 path) path) [
      | none ↦ emit sh (message (cannot_open path))
      | some text ↦ emit sh (chars (text ++ (10 ∷ [])))
    ]

-- What cmd_cd does with the outcome of fs_chdir.
abbrev pub changed : Shell → List ℕ → Option (Bool × Fs) → Option Shell
changed sh path none = none
changed sh path (some (false, fs)) = some (emit (record sh { fs = fs }) (message (cannot_cd path)))
changed sh path (some (true, fs)) =
    some (emit (record sh { fs = fs }) (message (cwd (fs_get_cwd fs))))

-- `none` where fs_chdir is undefined.
unfoldable pub cmd_cd : Shell → List ℕ → Option Shell
cmd_cd sh args =
    let path = skip_spaces args in
    if length path == 0
    then some (emit sh (message (path_required cd)))
    else changed sh path (fs_chdir sh.fs path)

-- cmd_mkdir and cmd_touch, which differ in the call.
unfoldable pub cmd_make : Shell → Command → (Fs → List ℕ → Bool × Fs) → List ℕ → Shell
cmd_make sh fn make args =
    let path = skip_plain args in
    if length args == 0
    then emit sh (message (usage fn))
    else if length path == 0
    then emit sh (message (path_required fn))
    else made sh fn path (make sh.fs path)

unfoldable pub cmd_write : Shell → List ℕ → Shell
cmd_write sh args =
    let (path, rest) = split_word (λ c. c == b' ') (skip_plain args) in
    let path_buf = take 255 path in
    let content = skip_plain rest in
    if length args == 0
    then emit sh (message (usage write))
    else if length (skip_plain args) == 0
    then emit sh (message (path_required write))
    else wrote sh path_buf content (fs_write_file sh.fs path_buf content)

unfoldable pub cmd_files : Shell → List ℕ → Shell
cmd_files sh args =
    let path = skip_plain args in
    emit sh (file_browser_create (if length path == 0 then codes "/" else path))

-- The bytes of the picture of one red pixel.
abbrev pub png_data : List ℕ
png_data =
    0x89 ∷ 0x50 ∷ 0x4E ∷ 0x47 ∷ 0x0D ∷ 0x0A ∷ 0x1A ∷ 0x0A ∷ 0x00 ∷ 0x00 ∷ 0x00 ∷ 0x0D ∷ 0x49 ∷ 0x48
    ∷ 0x44 ∷ 0x52 ∷ 0x00 ∷ 0x00 ∷ 0x00 ∷ 0x01 ∷ 0x00 ∷ 0x00 ∷ 0x00 ∷ 0x01 ∷ 0x08 ∷ 0x02 ∷ 0x00
    ∷ 0x00 ∷ 0x00 ∷ 0x90 ∷ 0x77 ∷ 0x53 ∷ 0xDE ∷ 0x00 ∷ 0x00 ∷ 0x00 ∷ 0x0C ∷ 0x49 ∷ 0x44 ∷ 0x41
    ∷ 0x54 ∷ 0x08 ∷ 0xD7 ∷ 0x63 ∷ 0xF8 ∷ 0xCF ∷ 0xC0 ∷ 0x00 ∷ 0x00 ∷ 0x03 ∷ 0x01 ∷ 0x01 ∷ 0x00
    ∷ 0x18 ∷ 0xDD ∷ 0x8D ∷ 0xB0 ∷ 0x00 ∷ 0x00 ∷ 0x00 ∷ 0x00 ∷ 0x49 ∷ 0x45 ∷ 0x4E ∷ 0x44 ∷ 0xAE
    ∷ 0x42 ∷ 0x60 ∷ 0x82 ∷ []

abbrev pub saved_png : Shell → Bool × Fs → Shell
saved_png sh (ok, fs) = emit (record sh { fs = fs }) (message (sample_png ok))

abbrev pub cmd_makesamplepng : Shell → Shell
cmd_makesamplepng sh = saved_png sh (fs_write_file sh.fs (codes "/sample.png") png_data)

-- A number at the front of a text, behind `n`, and the rest; the additions do not overflow up to
-- nine digits.
unfoldable pub number : ℕ → List ℕ → ℕ × List ℕ
number n [] = (n, [])
number n (c ∷ cs) =
    let more = number (n * 10 + (c - b'0')) cs in
    if leb b'0' c && leb c b'9' then more else (n, c ∷ cs)

abbrev pub skip_dot : List ℕ → List ℕ
skip_dot [] = []
skip_dot (c ∷ cs) = if c == b'.' then cs else c ∷ cs

-- The address of "a.b.c.d" as cmd_ping reads it, not yet in network order.
unfoldable pub parse_ip : List ℕ → ℕ
parse_ip p0 =
    let (a, p1) = number 0 p0 in
    let (b, p2) = number 0 (skip_dot p1) in
    let (c, p3) = number 0 (skip_dot p2) in
    let (d, p4) = number 0 (skip_dot p3) in
    bit_or (bit_or (bit_or (a * 2 ^ 24) (b * 2 ^ 16)) (c * 2 ^ 8)) d % 2 ^ 32

unfoldable pub cmd_ping : Shell → List ℕ → Shell
cmd_ping sh args =
    if length args == 0
    then emit sh (message (usage ping))
    else emit sh (arp_send_request (htonl (parse_ip args)))

-- A number behind blanks, or the value that is there already.
abbrev pub option_number : ℕ → List ℕ → ℕ × List ℕ
option_number default [] = (default, [])
option_number default (c ∷ cs) =
    if leb b'0' c && leb c b'9' then number 0 (c ∷ cs) else (default, c ∷ cs)

unfoldable pub cmd_soundtest : Shell → List ℕ → Shell
cmd_soundtest sh args =
    let (freq, rest) = option_number 440 (skip_plain args) in
    let (duration, end) = option_number 1000 (skip_plain rest) in
    emit sh (hda_play_sine freq duration)

-- `commands[i].fn(args)`
unfoldable pub run : Command → Shell → (List ℕ → Option (List ℕ)) → List ℕ → Option Shell
run lf sh ext2 args = some (cmd_lf sh args)
run echo sh ext2 args = some (emit sh (chars (args ++ (10 ∷ []))))
run cat sh ext2 args = some (cmd_cat sh ext2 args)
run pwd sh ext2 args = some (emit sh (message (cwd (fs_get_cwd sh.fs))))
run cd sh ext2 args = cmd_cd sh args
run mkdir sh ext2 args = some (cmd_make sh mkdir fs_mkdir args)
run touch sh ext2 args = some (cmd_make sh touch fs_mkfile args)
run write sh ext2 args = some (cmd_write sh args)
run files sh ext2 args = some (cmd_files sh args)
run makesamplepng sh ext2 args = some (cmd_makesamplepng sh)
run ping sh ext2 args = some (cmd_ping sh args)
run soundtest sh ext2 args = some (cmd_soundtest sh args)
run fn sh ext2 args = some (emit sh (call fn args))

-- A line of a command, which is not empty.
unfoldable pub dispatch : Shell → (List ℕ → Option (List ℕ)) → List ℕ → List ℕ → Option Shell
dispatch sh ext2 line p =
    let (name, rest) = split_word is_blank p in
    elim (find_command commands name) [
      | none ↦ some (emit sh (message (unknown_command line)))
      | some fn ↦ run fn sh ext2 (skip_spaces rest)
    ]

unfoldable pub command_execute : Shell → (List ℕ → Option (List ℕ)) → List ℕ → Option Shell
command_execute sh ext2 line =
    let p = skip_spaces line in if length p == 0 then some sh else dispatch sh ext2 line p
