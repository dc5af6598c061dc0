-- ===== src/Examples/Everything.antt =====
-- Every function of the model, for tests that run it.
use fscq.Base.{holds_below}
use fscq.Memory.{
  memmove, memset, set_byte, get16, get32, put16, put32, get_words, put_words, test_bit, set_bit,
  clear_bit, strncmp_eq, strncpy,
}
use fscq.Ide.{unix_read, unix_write, unix_flush, transfer, iderw, ideflush}
use fscq.Bio.{binit, find_cached, find_free, claim, bget, bread, bwrite, brelse}
use fscq.Log.{
  readsb, copy_block, install_loop, install_trans, put_header, read_head, write_head, clear_head,
  recover_from_log, initlog, may_exhaust, begin_op, write_log_loop, write_log, commit, end_op,
  absorb_index, log_sector, log_write,
}
use fscq.Fs.Block.{bzero, in_use, mark, unmark, find_bit, take_block, balloc_loop, balloc, bfree}
use fscq.Fs.Inode.{
  get_dinode, put_shorts, put_ints, put_dinode, iupdate, iget_scan, iget, fresh_dinode, ialloc_loop,
  ialloc, idup, load_inode, ilock, iunlock,
}
use fscq.Fs.Content.{
  addr_of, indirect_addr, bmap, free_direct, free_indirect, itrunc, iput, iunlockput, stati,
  bread_at, readi_loop, readi, write_loop, grow, zeroi, writei,
}
use fscq.Fs.Dir.{namecmp_eq, read_entry, dirlookup_loop, dirlookup, empty_entry, dirlink}
use fscq.Fs.Path.{
  skip_slashes, element, after_element, copy_name, take_element, skipelem, namex_loop, namex, namei,
  nameiparent,
}
use fscq.File.{
  unused_file, filealloc, filedup, release, fileclose, filestat, fileread, fill_hole, write_some,
  filewrite_loop, filewrite,
}
use fscq.Sysfile.Create.{create_existing, create_dot_entries, create_new, create}
use fscq.Sysfile.Open.{
  open_inode, sys_open, sys_fileclose, sys_read, sys_write, sys_fstat, sys_readdirent, sys_truncate,
  sys_make, sys_mkdir, sys_mksock,
}
use fscq.Sysfile.Links.{
  isdirempty_loop, isdirempty, unlink_entry, unlink_found, sys_dounlink, sys_unlink, dolink_bad,
  dolink_new, sys_dolink, sys_rename, sys_utime,
}
use fscq.Fuse.{
  strcmp_eq, is_stats, mode_of, stats_getattr, fuse_getattr, create_mode, fuse_create, fuse_mknod,
  fuse_open, fuse_release, readdir_loop, readdir_rounds, fuse_readdir, stats_size, stats_read,
  fuse_read, fuse_write, fuse_truncate, fuse_mkdir, fuse_rmdir, fuse_unlink, fuse_rename,
  fuse_utimens, fuse_chmod, main as fuse_main,
}
use fscq.Mkfs.{
  xshort as mkfs_xshort, xint as mkfs_xint, wsect as mkfs_wsect, rsect as mkfs_rsect,
  winode as mkfs_winode, rinode as mkfs_rinode, ialloc as mkfs_ialloc, used_bits as mkfs_used_bits,
  balloc as mkfs_balloc, direct_block as mkfs_direct_block, indirect_block as mkfs_indirect_block,
  block_of as mkfs_block_of, iappend_loop as mkfs_iappend_loop, iappend as mkfs_iappend,
  entry as mkfs_entry, append_chunks as mkfs_append_chunks, add_file as mkfs_add_file,
  add_files as mkfs_add_files, superblock as mkfs_superblock, add_dots as mkfs_add_dots,
  fix_root as mkfs_fix_root, main as mkfs_main,
}

unfoldable pub everything : Unit {0}
unfolding holds_below memmove memset set_byte get16 get32 put16 put32 get_words put_words test_bit
    set_bit clear_bit strncmp_eq strncpy unix_read unix_write unix_flush transfer iderw ideflush
    binit find_cached find_free claim bget bread bwrite brelse readsb copy_block install_loop
    install_trans put_header read_head write_head clear_head recover_from_log initlog may_exhaust
    begin_op write_log_loop write_log commit end_op absorb_index log_sector log_write bzero in_use
    mark unmark find_bit take_block balloc_loop balloc bfree get_dinode put_shorts put_ints
    put_dinode iupdate iget_scan iget fresh_dinode ialloc_loop ialloc idup load_inode ilock iunlock
    addr_of indirect_addr bmap free_direct free_indirect itrunc iput iunlockput stati bread_at
    readi_loop readi write_loop grow zeroi writei namecmp_eq read_entry dirlookup_loop dirlookup
    empty_entry dirlink skip_slashes element after_element copy_name take_element skipelem
    namex_loop namex namei nameiparent unused_file filealloc filedup release fileclose filestat
    fileread fill_hole write_some filewrite_loop filewrite create_existing create_dot_entries
    create_new create open_inode sys_open sys_fileclose sys_read sys_write sys_fstat sys_readdirent
    sys_truncate sys_make sys_mkdir sys_mksock isdirempty_loop isdirempty unlink_entry unlink_found
    sys_dounlink sys_unlink dolink_bad dolink_new sys_dolink sys_rename sys_utime strcmp_eq is_stats
    mode_of stats_getattr fuse_getattr create_mode fuse_create fuse_mknod fuse_open fuse_release
    readdir_loop readdir_rounds fuse_readdir stats_size stats_read fuse_read fuse_write
    fuse_truncate fuse_mkdir fuse_rmdir fuse_unlink fuse_rename fuse_utimens fuse_chmod fuse_main
    mkfs_xshort mkfs_xint mkfs_wsect mkfs_rsect mkfs_winode mkfs_rinode mkfs_ialloc mkfs_used_bits
    mkfs_balloc mkfs_direct_block mkfs_indirect_block mkfs_block_of mkfs_iappend_loop mkfs_iappend
    mkfs_entry mkfs_append_chunks mkfs_add_file mkfs_add_files mkfs_superblock mkfs_add_dots
    mkfs_fix_root mkfs_main
everything = tt
