-- ===== src/LibcMapping/Table4.antt =====
-- Lines 683 to 827 of `sloader_libc_map` in libc_mapping.cc.
use sloader.Base.{List, [], ◌∷◌}
use sloader.LibcMapping.{address_of, value_of, Entry}

unfoldable pub entries4 : List Entry
entries4 =
    ("getopt_long", address_of "getopt_long")
    ∷ ("getopt_long_only", address_of "getopt_long_only")
    ∷ ("getpagesize", address_of "getpagesize")
    ∷ ("getpass", address_of "getpass")
    ∷ ("getpeername", address_of "getpeername")
    ∷ ("getpgid", address_of "getpgid")
    ∷ ("getpgrp", address_of "getpgrp")
    ∷ ("getpid", address_of "getpid")
    ∷ ("getppid", address_of "getppid")
    ∷ ("getpriority", address_of "getpriority")
    ∷ ("getprotobyname", address_of "getprotobyname")
    ∷ ("getprotobynumber", address_of "getprotobynumber")
    ∷ ("getprotoent", address_of "getprotoent")
    ∷ ("getpwent", address_of "getpwent")
    ∷ ("getpwnam", address_of "getpwnam")
    ∷ ("getpwnam_r", address_of "getpwnam_r")
    ∷ ("getpwuid", address_of "getpwuid")
    ∷ ("getpwuid_r", address_of "getpwuid_r")
    ∷ ("getpwuid_r", address_of "getpwuid_r")
    ∷ ("getpwuid_r", address_of "getpwuid_r")
    ∷ ("getrandom", address_of "getrandom")
    ∷ ("getresgid", address_of "getresgid")
    ∷ ("getresuid", address_of "getresuid")
    ∷ ("getrlimit", address_of "getrlimit")
    ∷ ("getrlimit64", address_of "getrlimit64")
    ∷ ("getrpcbyname", address_of "getrpcbyname")
    ∷ ("getrpcbynumber", address_of "getrpcbynumber")
    ∷ ("getrpcent", address_of "getrpcent")
    ∷ ("getrusage", address_of "getrusage")
    ∷ ("getservbyname", address_of "getservbyname")
    ∷ ("getservbyport", address_of "getservbyport")
    ∷ ("getservbyport_r", address_of "getservbyport_r")
    ∷ ("getservent", address_of "getservent")
    ∷ ("getsgent", address_of "getsgent")
    ∷ ("getsgnam", address_of "getsgnam")
    ∷ ("getsid", address_of "getsid")
    ∷ ("getsockname", address_of "getsockname")
    ∷ ("getsockopt", address_of "getsockopt")
    ∷ ("getspent", address_of "getspent")
    ∷ ("getspnam", address_of "getspnam")
    ∷ ("getspnam_r", address_of "getspnam_r")
    ∷ ("gettext", address_of "gettext")
    ∷ ("gettid", address_of "gettid")
    ∷ ("gettimeofday", address_of "gettimeofday")
    ∷ ("getttynam", address_of "getttynam")
    ∷ ("getuid", address_of "getuid")
    ∷ ("getusershell", address_of "getusershell")
    ∷ ("getutent", address_of "getutent")
    ∷ ("getutline", address_of "getutline")
    ∷ ("getutxent", address_of "getutxent")
    ∷ ("getutxline", address_of "getutxline")
    ∷ ("getwc", address_of "getwc")
    ∷ ("getwchar", address_of "getwchar")
    ∷ ("getxattr", address_of "getxattr")
    ∷ ("glob", address_of "glob")
    ∷ ("glob64", address_of "glob64")
    ∷ ("glob_pattern_p", address_of "glob_pattern_p")
    ∷ ("globfree", address_of "globfree")
    ∷ ("globfree64", address_of "globfree64")
    ∷ ("gmtime", address_of "gmtime")
    ∷ ("gmtime_r", address_of "gmtime_r")
    ∷ ("gnu_dev_major", address_of "gnu_dev_major")
    ∷ ("gnu_dev_major", address_of "gnu_dev_major")
    ∷ ("gnu_dev_major", address_of "gnu_dev_major")
    ∷ ("gnu_dev_major", address_of "gnu_dev_major")
    ∷ ("gnu_dev_major", address_of "gnu_dev_major")
    ∷ ("gnu_dev_makedev", address_of "gnu_dev_makedev")
    ∷ ("gnu_dev_makedev", address_of "gnu_dev_makedev")
    ∷ ("gnu_dev_makedev", address_of "gnu_dev_makedev")
    ∷ ("gnu_dev_makedev", address_of "gnu_dev_makedev")
    ∷ ("gnu_dev_makedev", address_of "gnu_dev_makedev")
    ∷ ("gnu_dev_minor", address_of "gnu_dev_minor")
    ∷ ("gnu_dev_minor", address_of "gnu_dev_minor")
    ∷ ("gnu_dev_minor", address_of "gnu_dev_minor")
    ∷ ("gnu_dev_minor", address_of "gnu_dev_minor")
    ∷ ("gnu_dev_minor", address_of "gnu_dev_minor")
    ∷ ("gnu_get_libc_version", address_of "gnu_get_libc_version")
    ∷ ("grantpt", address_of "grantpt")
    ∷ ("group_member", address_of "group_member")
    ∷ ("hasmntopt", address_of "hasmntopt")
    ∷ ("herror", address_of "herror")
    ∷ ("hstrerror", address_of "hstrerror")
    ∷ ("iconv", address_of "iconv")
    ∷ ("iconv_close", address_of "iconv_close")
    ∷ ("iconv_open", address_of "iconv_open")
    ∷ ("if_freenameindex", address_of "if_freenameindex")
    ∷ ("if_indextoname", address_of "if_indextoname")
    ∷ ("if_nameindex", address_of "if_nameindex")
    ∷ ("if_nametoindex", address_of "if_nametoindex")
    ∷ ("in6addr_any", address_of "in6addr_any")
    ∷ ("in6addr_any", address_of "in6addr_any")
    ∷ ("in6addr_loopback", address_of "in6addr_loopback")
    ∷ ("inet_addr", address_of "inet_addr")
    ∷ ("inet_aton", address_of "inet_aton")
    ∷ ("inet_nsap_ntoa", address_of "inet_nsap_ntoa")
    ∷ ("inet_ntoa", address_of "inet_ntoa")
    ∷ ("inet_ntop", address_of "inet_ntop")
    ∷ ("inet_pton", address_of "inet_pton")
    ∷ ("initgroups", address_of "initgroups")
    ∷ ("innetgr", address_of "innetgr")
    ∷ ("inotify_add_watch", address_of "inotify_add_watch")
    ∷ ("inotify_init", address_of "inotify_init")
    ∷ ("inotify_init1", address_of "inotify_init1")
    ∷ ("inotify_rm_watch", address_of "inotify_rm_watch")
    ∷ ("ioctl", address_of "ioctl")
    ∷ ("iopl", address_of "iopl")
    ∷ ("isalnum", address_of "isalnum")
    ∷ ("isalpha", address_of "isalpha")
    ∷ ("isatty", address_of "isatty")
    ∷ ("isblank", address_of "isblank")
    ∷ ("iscntrl", address_of "iscntrl")
    ∷ ("isdigit", address_of "isdigit")
    ∷ ("isgraph", address_of "isgraph")
    ∷ ("islower", address_of "islower")
    ∷ ("isprint", address_of "isprint")
    ∷ ("ispunct", address_of "ispunct")
    ∷ ("isspace", address_of "isspace")
    ∷ ("isupper", address_of "isupper")
    ∷ ("iswalnum", address_of "iswalnum")
    ∷ ("iswalpha", address_of "iswalpha")
    ∷ ("iswcntrl", address_of "iscntrl")
    ∷ ("iswctype", address_of "iswctype")
    ∷ ("iswdigit", address_of "iswdigit")
    ∷ ("iswgraph", address_of "iswgraph")
    ∷ ("iswlower", address_of "iswlower")
    ∷ ("iswprint", address_of "isprint")
    ∷ ("iswspace", address_of "iswspace")
    ∷ ("iswupper", address_of "iswupper")
    ∷ ("isxdigit", address_of "isxdigit")
    ∷ ("jrand48", address_of "jrand48")
    ∷ ("kill", address_of "kill")
    ∷ ("killpg", address_of "killpg")
    ∷ ("klogctl", address_of "klogctl")
    ∷ ("l64a", address_of "l64a")
    ∷ ("lchmod", address_of "lchmod")
    ∷ ("lchown", address_of "lchown")
    ∷ ("lckpwdf", address_of "lckpwdf")
    ∷ ("ldexp", value_of "ldexp_c")
    ∷ ("ldexpl", address_of "ldexpl")
    ∷ ("lgetxattr", address_of "lgetxattr")
    ∷ ("link", address_of "link")
    ∷ ("linkat", address_of "linkat")
    ∷ ("listen", address_of "listen")
    ∷ ("listen", address_of "listen")
    ∷ ("listxattr", address_of "listxattr")
    ∷ []
