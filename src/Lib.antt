-- ===== src/Lib.antt =====
-- libdvdcss reads DVDs whose sectors may be scrambled by the Content Scrambling System (CSS).
--
-- The program's parts and where they are modelled:
--   * Tables: the constant tables of src/csstables.h, in Tables/Css.antt and Tables/Crypt.antt.
--   * Keys: `dvd_key` of src/css.h, five bytes, as a record; a buffer is a list of numbers, and
--     what a pointer into it refers to is the list from that place on.
--   * Unscramble: `dvdcss_unscramble` of src/css.c, the stream cipher of the sectors. Its state is
--     the four variables that live across rounds; `round` and `key_byte` are one round of its loop.
--   * Recover: `RecoverTitleKey` of src/css.c, which finds a title key from ten bytes of cipher text
--     and their plain text. Each of its loops is a function; -1 is `none`.
--   * DecryptKey: `DecryptKey` and `DecryptTitleKey` of src/css.c. The two buffers are a record, and
--     a flag says whether they are the same one.
--   * DiscKey: `DecryptDiscKey` of src/css.c, which tries the player keys.
--   * CryptKey: `CryptKey` of src/css.c, the cipher of the authentication. Its loop over bits is
--     `gather` and `after_bits`, its six passes over five bytes are `mix_pass`.
--   * Dvdcss: `struct dvdcss_s` of src/libdvdcss.h, the ioctls of src/ioctl.h and the pointers
--     `pf_seek` and `pf_read`. A drive, with the system below it, is a parameter that answers each
--     command after the whole history of commands; the state holds that history as a log.
--   * BusKey: `GetBusKey` of src/css.c. Each function `on_...` is what follows one answer.
--   * CrackTitle: `AttackPattern` and `CrackTitleKey` of src/css.c.
--   * TitleKeys: `dvdcss_test`, `dvdcss_disckey` and `dvdcss_titlekey` of src/css.c, which put these
--     together; `CrackDiscKey` is a parameter.
--   * CrackDisc: `CrackDiscKey` of src/css.c with `investigate`. Its two tables are functions from
--     addresses to values, and each of its loops is a function.
--   * Packets: src/ioctl.c on Haiku, Solaris, QNX and OS/2, which hand the packets of the commands to
--     the kernel; Packets/Ioctls.antt has the functions. Packets/Decoding.antt is the drive's side, and
--     Packets/Served.antt a kernel that serves the packets with the drive of Dvdcss. A kernel that fails
--     returns what each system documents: a negative number, or on QNX and OS/2 a positive one.
--   * Structs: src/ioctl.c on Linux and the BSDs, which hand a structure to the kernel, and in
--     Structs/Served.antt a kernel that carries out the requests with the drive of Dvdcss.
--   * Titles: `dvdcss_title` of src/css.c, with its list of titles and its cache of keys on disk.
--   * Reading: `dvdcss_seek` and `dvdcss_read` of src/libdvdcss.c. In Reading/Clients.antt a client is
--     any sequence of calls of these two and of `dvdcss_readv`.
--   * Cache: the cache directory of a disc, `set_cache_directory` to `init_cache` of
--     src/libdvdcss.c, with the environment and the file system as parameters.
--   * Opening: `dvdcss_open_common` of src/libdvdcss.c, which puts test, disc key and cache together.
--     `library_of` is what a client then works with. It is `none` for an instance with a path in
--     `psz_cachefile` and `psz_block` not set, through which `dvdcss_title` would print.
--   * Readv: `dvdcss_readv` of src/libdvdcss.c; the buffers are lists, and what they hold is given one
--     after the other.
--   * Device: seeks, reads and vectored reads of a file and of a stream, from src/device.c, over a
--     system that may refuse a seek or give a part of what is wanted; the choice and the opening of a
--     device; and, in Device/Windows.antt, the calls of Windows, with the buffer of `win2k_readv`;
--     SetFilePointer is a parameter there.
-- Common holds what these share: Boolean tests, arrays, machine words and the laws of `&`, `|`, `^`.
--
-- An `unsigned int` is a number below 2 ^ 32, and wraps where the code can wrap it; positions and
-- counts that the code keeps as nonnegative `int` are numbers, and -1 is `none`. Loops that count are
-- recursions on the rounds that are left. Two loops have fuel: `crack_loop` of CrackTitle, with two
-- more than the sectors to read, since each pass but the one after a read error takes one sector off
-- and the last pass leaves the loop; and `read_loop` of Device, with one more than the bytes that are
-- wanted, since each round that goes on reads a byte.
--
-- Not modelled: debug and error messages; the search for a drive in the registry of Darwin; the
-- ioctls of Darwin and Windows, which hand structures to the kernel; what `dvdcss_close`
-- frees; a `malloc` that fails, but in `win2k_readv`.
pub mod Common
pub mod Tables
pub mod Keys
pub mod Unscramble
pub mod Recover
pub mod DecryptKey
pub mod DiscKey
pub mod CrackDisc
pub mod CryptKey
pub mod Dvdcss
pub mod Packets
pub mod Structs
pub mod BusKey
pub mod CrackTitle
pub mod TitleKeys
pub mod Titles
pub mod Cache
pub mod Opening
pub mod Reading
pub mod Readv
pub mod Device
