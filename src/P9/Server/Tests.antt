-- ===== src/P9/Server/Tests.antt =====
-- The theorems of the 9p server at small requests, and runs of its handlers.
use kvmc.Prelude.{
  false, ℕ, ◌≡◌, ◌≢◌, refl, List, [], ◌∷◌, ◌++◌, true, none, some, arith, All, ◌==◌, if◌then◌else◌,
}
use kvmc.RbTree.{inorder, leaf, node, red}
use kvmc.P9Pdu.{Pdu, splice, dword, byte, word}
use kvmc.P9Pdu.Buffers.{content}
use kvmc.P9Pdu.Codec.{wires}
use kvmc.P9.{Text, Fid, Node, Stat, done, failed, Host, P9, ok}
use kvmc.P9.Paths.{path_is_illegal, get_full_path_helper}
use kvmc.P9.Paths.Components.{climbs, up_next, components, any_up, path_is_illegal_lem}
use kvmc.P9.Fids.{search_fid, insert_new_fid, get_fid, close_fid}
use kvmc.P9.Fids.Spine.{line_balance}
use kvmc.P9.Fids.Table.{IsTable}
use kvmc.P9.Fids.Insert.{insert_new_fid-first}
use kvmc.P9.Fids.Refine.{get_fid_lem, close_fid_lem, released, stored}
use kvmc.P9.Replies.{send_reply}
use kvmc.P9.Replies.Header.{reply_lem}
use kvmc.P9.Files.{name_in}
use kvmc.P9.Names.{renamed, rename_fids}
use kvmc.P9.Names.Rename.{rename_fids-relative, renamed-escapes}
use kvmc.P9.Walk.{walk_steps}
use kvmc.P9.Server.{do_io}
use kvmc.P9.Safety.{Inside, FidInside, Respects, IsSafe, paths_of}
use kvmc.P9.Safety.Create.{named, name_in_lem}
use kvmc.P9.Safety.Requests.{do_io-IsSafe}
use kvmc.P9.Progress.{Ends}
use kvmc.P9.Progress.Loops.{walk_steps-Ends, walk_steps-wraps}

-- "/r", "/r/a"
abbrev root : Text
root = 47 ∷ 114 ∷ []

abbrev a_directory : Stat
a_directory = record {
  st_mode = 16384;
  st_ino = 5;
  st_nlink = 1;
  st_uid = 0;
  st_gid = 0;
  st_rdev = 0;
  st_size = 0;
  st_blksize = 512;
  st_blocks = 0;
  st_atime = (0, 0);
  st_mtime = (0, 0);
  st_ctime = (0, 0);
}

-- A host that notes the paths that it is given.
abbrev noting : Host (List Text)
noting = record {
  junk = [];
  junk_stat = a_directory;
  keeps_overlap = false;
  malloc = λ h n. true;
  calloc = λ h. (true, h);
  change = λ c h. (done tt, paths_of c ++ h);
  lstat = λ p h. (done a_directory, p ∷ h);
  stat = λ p h. (done a_directory, p ∷ h);
  statfs = λ p h. (failed 38, p ∷ h);
  readlink = λ p h. (done [], p ∷ h);
  opendir = λ p h. (done 1, p ∷ h);
  open_file = λ p flags mode h. (done 3, p ∷ h);
  close = λ fd h. h;
  closedir = λ dir h. h;
  dirfd = λ dir h. dir;
  seekdir = λ dir offset h. h;
  readdir = λ dir h. (none, h);
  sync = λ b fd h. (done tt, h);
  preadv = λ fd size offset h. (failed 5, h);
  pwritev = λ fd bytes offset h. (done 0, h);
}

abbrev Noted : List Text → Type 0
Noted = All (Inside root)

All-join : (xs ys : List Text) → Noted xs → Noted ys → Noted (xs ++ ys)
All-join [] ys h i = i
All-join (x ∷ xs) ys h i = (h.0, All-join xs ys h.1 i)

noting-Respects : Respects noting root Noted
noting-Respects = record {
  calloc-I = λ h i. i;
  change-I = λ c h p i. All-join (paths_of c) h p i;
  lstat-I = λ p h j i. (j, i);
  stat-I = λ p h j i. (j, i);
  statfs-I = λ p h j i. (j, i);
  readlink-I = λ p h j i. (j, i);
  opendir-I = λ p h j i. (j, i);
  open_file-I = λ p flags mode h j i. (j, i);
  close-I = λ fd h i. i;
  closedir-I = λ dir h i. i;
  seekdir-I = λ dir offset h i. i;
  readdir-I = λ dir h i. i;
  sync-I = λ b fd h i. i;
  preadv-I = λ fd size offset h i. i;
  pwritev-I = λ fd bytes offset h i. i;
}

-- P9_TUNLINKAT of "x" in the directory 1, with the tag 9.
abbrev unlinkat_x : List ℕ
unlinkat_x = 18 ∷ 0 ∷ 0 ∷ 0 ∷ 76 ∷ 9 ∷ 0 ∷ 1 ∷ 0 ∷ 0 ∷ 0 ∷ 1 ∷ 0 ∷ 120 ∷ 0 ∷ 0 ∷ 0 ∷ 0 ∷ []

abbrev twelve : List ℕ
twelve = 8 ∷ 8 ∷ 8 ∷ 8 ∷ 8 ∷ 8 ∷ 8 ∷ 8 ∷ 8 ∷ 8 ∷ 8 ∷ 8 ∷ []

abbrev request : Pdu
request = record {
  read_offset = 7;
  write_offset = 7;
  out_iov = unlinkat_x ∷ [];
  in_iov = twelve ∷ [];
}

-- The fid 1 at "/a", with the descriptor 3.
abbrev a_fid : Fid
a_fid = record { fid = 1; uid = 0; path = 47 ∷ 97 ∷ []; dir = 0; fd = 3 }

abbrev server : P9 (List Text)
server = record {
  root_dir = root;
  fids = node red leaf (record { key = 1; at = 0 }) leaf;
  store = a_fid ∷ [];
  pdu = request;
  host = [];
}

server-IsTable : IsTable server.fids
server-IsTable = record { ordered = omega arith; small = omega arith }

server-IsSafe : IsSafe root Noted server
unfolding climbs up_next
server-IsSafe = record { same_root = refl; inside = ((refl, refl), tt); kept = tt }

-- The request twice.
abbrev requests : List (List (List ℕ) × List (List ℕ))
requests = (twelve ∷ [], unlinkat_x ∷ []) ∷ (twelve ∷ [], unlinkat_x ∷ []) ∷ []

do_io-IsSafe_example : IsSafe root Noted (do_io noting line_balance 0 requests server).1
do_io-IsSafe_example =
    do_io-IsSafe noting-Respects line_balance 0 requests server
      ((λ e. ground (arith, e)), ((λ e. ground (arith, e)), tt)) server-IsSafe

path_is_illegal_lem_example :
    path_is_illegal (root ++ (47 ∷ 46 ∷ 46 ∷ []))
    ≡ any_up (components (root ++ (47 ∷ 46 ∷ 46 ∷ []))).1
path_is_illegal_lem_example = path_is_illegal_lem (root ++ (47 ∷ 46 ∷ 46 ∷ []))

get_fid_lem_example :
    (p : ℕ) × (s' : P9 (List Text)) × (get_fid noting line_balance 7 server ≡ (ok p, s'))
    × IsTable s'.fids
    × ((g : ℕ) → search_fid s'.fids g ≡ (if 7 == g then some p else search_fid server.fids g))
    × (s'.store ≡ stored (search_fid server.fids 7) 7 server.store)
get_fid_lem_example =
    get_fid_lem noting line_balance server 7 [] server-IsTable (omega arith) (omega arith) refl

close_fid_lem_example :
    (s' : P9 (List Text)) × (close_fid noting line_balance 1 server ≡ (ok tt, s'))
    × IsTable s'.fids
    × ((g : ℕ) → search_fid s'.fids g ≡ (if 1 == g then none else search_fid server.fids g))
    × (s'.host ≡ released noting line_balance a_fid [])
unfolding search_fid
close_fid_lem_example =
    close_fid_lem noting line_balance server 1 0 a_fid server-IsTable refl refl refl

-- The number 2 ^ 31 + 2 behind 1 at the root.
abbrev far : Node
far = record { key = 2147483650; at = 5 }

abbrev first : Node
first = record { key = 1; at = 0 }

insert_new_fid-first_example :
    inorder (insert_new_fid line_balance far (node red leaf first leaf)) ≡ far ∷ first ∷ []
insert_new_fid-first_example =
    insert_new_fid-first line_balance (node red leaf first leaf) far (omega arith) (omega arith, tt)

name_in_lem_example :
    name_in false 0 (98 ∷ []) server
    ≡ named false 0
        (98 ∷ [])
        a_fid
        server
        (get_full_path_helper (server.root_dir ++ a_fid.path) (98 ∷ []))
name_in_lem_example = name_in_lem false 0 (98 ∷ []) a_fid server refl

-- The entry "a" of the root directory, which the fid 1 stands for, gets the name "b".
rename_fids-relative_example : rename_fids (97 ∷ []) (98 ∷ []) server ≡ (ok tt, server)
rename_fids-relative_example =
    rename_fids-relative server 97 [] (98 ∷ []) server-IsSafe (λ e. ground (arith, e))

renamed-escapes_example : ¬ FidInside (renamed root [] (98 ∷ []) a_fid)
renamed-escapes_example =
    renamed-escapes root 98 [] a_fid refl (λ e. ground (arith, e)) (λ e. ground (arith, e))
      (omega arith)

reply_lem_example :
    (s' : P9 (List Text)) × (send_reply noting server ≡ (ok 7, s'))
    × (content s'.pdu.in_iov
        ≡ splice 0 (wires (dword 7 ∷ byte 77 ∷ word 9 ∷ [])) (content server.pdu.in_iov))
    × (s'.host ≡ [])
reply_lem_example =
    reply_lem noting server 18 76 9 (1 ∷ 0 ∷ 0 ∷ 0 ∷ 1 ∷ 0 ∷ 120 ∷ 0 ∷ 0 ∷ 0 ∷ 0 ∷ []) refl
      (omega arith)

walk_steps-Ends_example : Ends (walk_steps noting 2 0 0 2 0 0)
walk_steps-Ends_example = walk_steps-Ends noting 2 0 0 2 0 0 (omega arith) (omega arith)

walk_steps-wraps_example : (walk_steps noting 3 0 0 300 0 0 server).0 ≢ ok 5
walk_steps-wraps_example =
    walk_steps-wraps noting 3 0 0 300 0 0 5 server (omega arith) (omega arith)
