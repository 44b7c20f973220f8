-- ===== src/Format/Constants.antt =====
-- const.go: the numbers that name elements, features and protocol messages.
use Prim.Native.Nat.{ℕ}

abbrev pub ca_format_entry : ℕ
ca_format_entry = 0x1396fabcea5bbb51

abbrev pub ca_format_user : ℕ
ca_format_user = 0xf453131aaeeaccb3

abbrev pub ca_format_group : ℕ
ca_format_group = 0x25eb6ac969396a52

abbrev pub ca_format_xattr : ℕ
ca_format_xattr = 0xb8157091f80bc486

abbrev pub ca_format_acl_user : ℕ
ca_format_acl_user = 0x297dc88b2ef12faf

abbrev pub ca_format_acl_group : ℕ
ca_format_acl_group = 0x36f2acb56cb3dd0b

abbrev pub ca_format_acl_group_obj : ℕ
ca_format_acl_group_obj = 0x23047110441f38f3

abbrev pub ca_format_acl_default : ℕ
ca_format_acl_default = 0xfe3eeda6823c8cd0

abbrev pub ca_format_acl_default_user : ℕ
ca_format_acl_default_user = 0xbdf03df9bd010a91

abbrev pub ca_format_acl_default_group : ℕ
ca_format_acl_default_group = 0xa0cb1168782d1f51

abbrev pub ca_format_fcaps : ℕ
ca_format_fcaps = 0xf7267db0afed0629

abbrev pub ca_format_selinux : ℕ
ca_format_selinux = 0x46faf0602fd26c59

abbrev pub ca_format_symlink : ℕ
ca_format_symlink = 0x664a6fb6830e0d6c

abbrev pub ca_format_device : ℕ
ca_format_device = 0xac3dace369dfe643

abbrev pub ca_format_payload : ℕ
ca_format_payload = 0x8b9e1d93d6dcffc9

abbrev pub ca_format_filename : ℕ
ca_format_filename = 0x6dbb6ebcb3161f0b

abbrev pub ca_format_goodbye : ℕ
ca_format_goodbye = 0xdfd35c5e8327c403

abbrev pub ca_format_goodbye_tail_marker : ℕ
ca_format_goodbye_tail_marker = 0x57446fa533702943

abbrev pub ca_format_index : ℕ
ca_format_index = 0x96824d9c7b129ff9

abbrev pub ca_format_table : ℕ
ca_format_table = 0xe75b9e112f17417d

abbrev pub ca_format_table_tail_marker : ℕ
ca_format_table_tail_marker = 0x4b4f050e5549ecd1

abbrev pub ca_format_sha512256 : ℕ
ca_format_sha512256 = 0x2000000000000000

abbrev pub ca_format_exclude_no_dump : ℕ
ca_format_exclude_no_dump = 0x8000000000000000

abbrev pub ca_protocol_hello : ℕ
ca_protocol_hello = 0x3c71d0948ca5fbee

abbrev pub ca_protocol_index : ℕ
ca_protocol_index = 0xb32a91dd2b3e27f8

abbrev pub ca_protocol_index_eof : ℕ
ca_protocol_index_eof = 0x4f0932f1043718f5

abbrev pub ca_protocol_archive : ℕ
ca_protocol_archive = 0x95d6428a69eddcc5

abbrev pub ca_protocol_archive_eof : ℕ
ca_protocol_archive_eof = 0x450bef663f24cbad

abbrev pub ca_protocol_request : ℕ
ca_protocol_request = 0x8ab427e0f89d9210

abbrev pub ca_protocol_chunk : ℕ
ca_protocol_chunk = 0x5213dd180a84bc8c

abbrev pub ca_protocol_missing : ℕ
ca_protocol_missing = 0xd010f9fac82b7b6c

abbrev pub ca_protocol_goodbye : ℕ
ca_protocol_goodbye = 0xad205dbf1a3686c3

abbrev pub ca_protocol_abort : ℕ
ca_protocol_abort = 0xe7d9136b7efea352

abbrev pub ca_protocol_readable_store : ℕ
ca_protocol_readable_store = 0x1

abbrev pub ca_protocol_writable_store : ℕ
ca_protocol_writable_store = 0x2

abbrev pub ca_protocol_readable_index : ℕ
ca_protocol_readable_index = 0x4

abbrev pub ca_protocol_writable_index : ℕ
ca_protocol_writable_index = 0x8

abbrev pub ca_protocol_readable_archive : ℕ
ca_protocol_readable_archive = 0x10

abbrev pub ca_protocol_writable_archive : ℕ
ca_protocol_writable_archive = 0x20

abbrev pub ca_protocol_pull_chunks : ℕ
ca_protocol_pull_chunks = 0x40

abbrev pub ca_protocol_pull_index : ℕ
ca_protocol_pull_index = 0x80

abbrev pub ca_protocol_pull_archive : ℕ
ca_protocol_pull_archive = 0x100

abbrev pub ca_protocol_push_chunks : ℕ
ca_protocol_push_chunks = 0x200

abbrev pub ca_protocol_push_index : ℕ
ca_protocol_push_index = 0x400

abbrev pub ca_protocol_push_index_chunks : ℕ
ca_protocol_push_index_chunks = 0x800

abbrev pub ca_protocol_push_archive : ℕ
ca_protocol_push_archive = 0x1000

abbrev pub ca_protocol_request_high_priority : ℕ
ca_protocol_request_high_priority = 1

abbrev pub ca_protocol_chunk_compressed : ℕ
ca_protocol_chunk_compressed = 1

abbrev pub ca_format_goodbye_hash_key0 : ℕ
ca_format_goodbye_hash_key0 = 0x8574442b0f1d84b3

abbrev pub ca_format_goodbye_hash_key1 : ℕ
ca_format_goodbye_hash_key1 = 0x2736ed30d1c22ec1

abbrev pub ca_format_with16_bit_uids : ℕ
ca_format_with16_bit_uids = 0x1

abbrev pub ca_format_with32_bit_uids : ℕ
ca_format_with32_bit_uids = 0x2

abbrev pub ca_format_with_user_names : ℕ
ca_format_with_user_names = 0x4

abbrev pub ca_format_with_sec_time : ℕ
ca_format_with_sec_time = 0x8

abbrev pub ca_format_with_usec_time : ℕ
ca_format_with_usec_time = 0x10

abbrev pub ca_format_with_nsec_time : ℕ
ca_format_with_nsec_time = 0x20

abbrev pub ca_format_with2_sec_time : ℕ
ca_format_with2_sec_time = 0x40

abbrev pub ca_format_with_read_only : ℕ
ca_format_with_read_only = 0x80

abbrev pub ca_format_with_permissions : ℕ
ca_format_with_permissions = 0x100

abbrev pub ca_format_with_symlinks : ℕ
ca_format_with_symlinks = 0x200

abbrev pub ca_format_with_device_nodes : ℕ
ca_format_with_device_nodes = 0x400

abbrev pub ca_format_with_fifos : ℕ
ca_format_with_fifos = 0x800

abbrev pub ca_format_with_sockets : ℕ
ca_format_with_sockets = 0x1000

abbrev pub ca_format_with_flag_hidden : ℕ
ca_format_with_flag_hidden = 0x2000

abbrev pub ca_format_with_flag_system : ℕ
ca_format_with_flag_system = 0x4000

abbrev pub ca_format_with_flag_archive : ℕ
ca_format_with_flag_archive = 0x8000

abbrev pub ca_format_with_flag_append : ℕ
ca_format_with_flag_append = 0x10000

abbrev pub ca_format_with_flag_no_atime : ℕ
ca_format_with_flag_no_atime = 0x20000

abbrev pub ca_format_with_flag_compr : ℕ
ca_format_with_flag_compr = 0x40000

abbrev pub ca_format_with_flag_no_cow : ℕ
ca_format_with_flag_no_cow = 0x80000

abbrev pub ca_format_with_flag_no_dump : ℕ
ca_format_with_flag_no_dump = 0x100000

abbrev pub ca_format_with_flag_dir_sync : ℕ
ca_format_with_flag_dir_sync = 0x200000

abbrev pub ca_format_with_flag_immutable : ℕ
ca_format_with_flag_immutable = 0x400000

abbrev pub ca_format_with_flag_sync : ℕ
ca_format_with_flag_sync = 0x800000

abbrev pub ca_format_with_flag_no_comp : ℕ
ca_format_with_flag_no_comp = 0x1000000

abbrev pub ca_format_with_flag_project_inherit : ℕ
ca_format_with_flag_project_inherit = 0x2000000

abbrev pub ca_format_with_subvolume : ℕ
ca_format_with_subvolume = 0x4000000

abbrev pub ca_format_with_subvolume_ro : ℕ
ca_format_with_subvolume_ro = 0x8000000

abbrev pub ca_format_with_xattrs : ℕ
ca_format_with_xattrs = 0x10000000

abbrev pub ca_format_with_acl : ℕ
ca_format_with_acl = 0x20000000

abbrev pub ca_format_with_selinux : ℕ
ca_format_with_selinux = 0x40000000

abbrev pub ca_format_with_fcaps : ℕ
ca_format_with_fcaps = 0x80000000

abbrev pub ca_format_exclude_file : ℕ
ca_format_exclude_file = 0x1000000000000000

abbrev pub ca_format_exclude_submounts : ℕ
ca_format_exclude_submounts = 0x4000000000000000
