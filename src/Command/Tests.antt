-- ===== src/Command/Tests.antt =====
-- The commands of src/shell/command.c on concrete lines.
use hz_os.Base.{ℕ, ◌≡◌, true, Option, none, some, List, [], ◌∷◌, ◌++◌, refl, arith}
use hz_os.Base.Text.{codes}
use hz_os.Fs.{
  fs_write_file, write_node, write_created, fs_mkfile, make, get_parent_and_name, split_at,
  last_slash, fs_find, find_loop, step, find_in_dir, walk, same_name, make_at, create_node,
  add_child, last_sibling, attach,
}
use hz_os.Fs.Session.{fs_init, install}
use hz_os.Fs.Reach.{Reach-IsFs, here}
use hz_os.Command.{
  Shell, chars, message, unknown_command, arp_send_request, emit, command_execute, dispatch,
  skip_spaces, split_word, find_command, run, cmd_ping, parse_ip, number,
}
use hz_os.Command.Files.{write-cat, write_line, cat_line, after_write}

abbrev start_shell : Shell
start_shell = record { fs = fs_init; effects = [] }

abbrev no_ext2 : List ℕ → Option (List ℕ)
no_ext2 path = none

abbrev note_path : List ℕ
note_path = codes "/etc/note"

note_made : (fs_write_file fs_init note_path (codes "hi")).0 ≡ true
unfolding fs_write_file write_created write_node fs_mkfile make get_parent_and_name split_at
    last_slash fs_find find_loop step find_in_dir walk same_name make_at fs_init install create_node
    add_child last_sibling attach
note_made = refl

write-cat_example :
    let sh' =
      after_write start_shell note_path
        (codes "hi")
        (fs_write_file fs_init note_path (codes "hi")).1 in
    (command_execute start_shell no_ext2 (write_line note_path (codes "hi")) ≡ some sh')
    × (command_execute sh' no_ext2 (cat_line note_path)
        ≡ some (emit sh' (chars (codes "hi" ++ (10 ∷ [])))))
write-cat_example =
    write-cat start_shell no_ext2 note_path (codes "hi") (Reach-IsFs here) (omega arith)
      (omega arith) (ground arith) refl refl note_made

-- ping 10.0.2.2 asks for 0x0202000a, the address in the order of the network.
ping_gateway :
    command_execute start_shell no_ext2 (codes "ping 10.0.2.2")
    ≡ some (emit start_shell (arp_send_request 33685514))
unfolding command_execute dispatch skip_spaces split_word find_command same_name run cmd_ping
    parse_ip number
ping_gateway = refl

no_such_command :
    command_execute start_shell no_ext2 (codes " dir")
    ≡ some (emit start_shell (message (unknown_command (codes " dir"))))
unfolding command_execute dispatch skip_spaces split_word find_command same_name
no_such_command = refl
