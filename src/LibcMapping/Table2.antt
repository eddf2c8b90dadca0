-- ===== src/LibcMapping/Table2.antt =====
-- Lines 393 to 537 of `sloader_libc_map` in libc_mapping.cc.
use sloader.Base.{List, [], ◌∷◌}
use sloader.LibcMapping.{address_of, Entry}

unfoldable pub entries2 : List Entry
entries2 =
    ("__vasprintf_chk", address_of "__vasprintf_chk")
    ∷ ("__vfprintf_chk", address_of "__vfprintf_chk")
    ∷ ("__vsnprintf_chk", address_of "__vsnprintf_chk")
    ∷ ("__vsprintf_chk", address_of "__vsprintf_chk")
    ∷ ("__vsyslog_chk", address_of "__vsyslog_chk")
    ∷ ("__wcscoll_l", address_of "wcscoll_l")
    ∷ ("__wcsftime_l", address_of "wcsftime_l")
    ∷ ("__wcsncpy_chk", address_of "__wcsncpy_chk")
    ∷ ("__wcsxfrm_l", address_of "wcsxfrm_l")
    ∷ ("__wctomb_chk", address_of "__wctomb_chk")
    ∷ ("__wctype_l", address_of "wctype_l")
    ∷ ("__wmemcpy_chk", address_of "__wmemcpy_chk")
    ∷ ("__wmemmove_chk", address_of "__wmemmove_chk")
    ∷ ("__wmemset_chk", address_of "__wmemset_chk")
    ∷ ("__xpg_basename", address_of "__xpg_basename")
    ∷ ("_dl_find_object", address_of "_dl_find_object")
    ∷ ("_exit", address_of "_exit")
    ∷ ("_longjmp", address_of "_longjmp")
    ∷ ("_obstack_begin", address_of "_obstack_begin")
    ∷ ("_obstack_newchunk", address_of "_obstack_newchunk")
    ∷ ("_obstack_free", address_of "obstack_free")
    ∷ ("_setjmp", address_of "_setjmp")
    ∷ ("abort", address_of "abort")
    ∷ ("accept", address_of "accept")
    ∷ ("accept4", address_of "accept4")
    ∷ ("access", address_of "access")
    ∷ ("access", address_of "access")
    ∷ ("alarm", address_of "alarm")
    ∷ ("aligned_alloc", address_of "aligned_alloc")
    ∷ ("alphasort", address_of "alphasort")
    ∷ ("alphasort64", address_of "alphasort64")
    ∷ ("argp_err_exit_status", address_of "argp_err_exit_status")
    ∷ ("argp_help", address_of "argp_help")
    ∷ ("argp_parse", address_of "argp_parse")
    ∷ ("argz_create_sep", address_of "argz_create_sep")
    ∷ ("asctime", address_of "asctime")
    ∷ ("asctime_r", address_of "asctime_r")
    ∷ ("asprintf", address_of "asprintf")
    ∷ ("atof", address_of "atof")
    ∷ ("atoi", address_of "atoi")
    ∷ ("atol", address_of "atol")
    ∷ ("atoll", address_of "atoll")
    ∷ ("backtrace", address_of "backtrace")
    ∷ ("backtrace_symbols", address_of "backtrace_symbols")
    ∷ ("backtrace_symbols_fd", address_of "backtrace_symbols_fd")
    ∷ ("basename", address_of "basename")
    ∷ ("bind", address_of "bind")
    ∷ ("bind_textdomain_codeset", address_of "bind_textdomain_codeset")
    ∷ ("bindtextdomain", address_of "bindtextdomain")
    ∷ ("bsearch", address_of "bsearch")
    ∷ ("bsearch", address_of "bsearch")
    ∷ ("bsearch", address_of "bsearch")
    ∷ ("bsearch", address_of "bsearch")
    ∷ ("bsearch", address_of "bsearch")
    ∷ ("btowc", address_of "btowc")
    ∷ ("calloc", address_of "calloc")
    ∷ ("canonicalize_file_name", address_of "canonicalize_file_name")
    ∷ ("capget", address_of "capget")
    ∷ ("capset", address_of "capset")
    ∷ ("cfgetispeed", address_of "cfgetispeed")
    ∷ ("cfgetospeed", address_of "cfgetospeed")
    ∷ ("cfmakeraw", address_of "cfmakeraw")
    ∷ ("cfsetispeed", address_of "cfsetispeed")
    ∷ ("cfsetospeed", address_of "cfsetospeed")
    ∷ ("cfsetspeed", address_of "cfsetspeed")
    ∷ ("chdir", address_of "chdir")
    ∷ ("chmod", address_of "chmod")
    ∷ ("chown", address_of "chown")
    ∷ ("chroot", address_of "chroot")
    ∷ ("clearenv", address_of "clearenv")
    ∷ ("clearerr", address_of "clearerr")
    ∷ ("clearerr_unlocked", address_of "clearerr_unlocked")
    ∷ ("clock", address_of "clock")
    ∷ ("clock_getres", address_of "clock_getres")
    ∷ ("clock_gettime", address_of "clock_gettime")
    ∷ ("clock_settime", address_of "clock_settime")
    ∷ ("clone", address_of "clone")
    ∷ ("close", address_of "close")
    ∷ ("close_range", address_of "close_range")
    ∷ ("closedir", address_of "closedir")
    ∷ ("closefrom", address_of "closefrom")
    ∷ ("closelog", address_of "closelog")
    ∷ ("confstr", address_of "confstr")
    ∷ ("connect", address_of "connect")
    ∷ ("copy_file_range", address_of "copy_file_range")
    ∷ ("creat", address_of "creat")
    ∷ ("creat64", address_of "creat64")
    ∷ ("ctermid", address_of "ctermid")
    ∷ ("ctime", address_of "ctime")
    ∷ ("ctime_r", address_of "ctime_r")
    ∷ ("daemon", address_of "daemon")
    ∷ ("dcgettext", address_of "dcgettext")
    ∷ ("dcngettext", address_of "dcngettext")
    ∷ ("dgettext", address_of "dgettext")
    ∷ ("difftime", address_of "difftime")
    ∷ ("dirfd", address_of "dirfd")
    ∷ ("dirname", address_of "dirname")
    ∷ ("dl_iterate_phdr", address_of "dl_iterate_phdr")
    ∷ ("dladdr", address_of "sloader_dladdr")
    ∷ ("dlclose", address_of "dlclose")
    ∷ ("dlerror", address_of "dlerror")
    ∷ ("dlopen", address_of "sloader_dlopen")
    ∷ ("dlsym", address_of "sloader_dlsym")
    ∷ ("dlvsym", address_of "sloader_dlvsym")
    ∷ ("dn_expand", address_of "dn_expand")
    ∷ ("dn_skipname", address_of "dn_skipname")
    ∷ ("dngettext", address_of "dngettext")
    ∷ ("dup", address_of "dup")
    ∷ ("dup2", address_of "dup2")
    ∷ ("dup3", address_of "dup3")
    ∷ ("duplocale", address_of "duplocale")
    ∷ ("duplocale", address_of "duplocale")
    ∷ ("duplocale", address_of "duplocale")
    ∷ ("duplocale", address_of "duplocale")
    ∷ ("eaccess", address_of "eaccess")
    ∷ ("endaliasent", address_of "endaliasent")
    ∷ ("endgrent", address_of "endgrent")
    ∷ ("endhostent", address_of "endhostent")
    ∷ ("endmntent", address_of "endmntent")
    ∷ ("endnetent", address_of "endnetent")
    ∷ ("endnetgrent", address_of "endnetgrent")
    ∷ ("endprotoent", address_of "endprotoent")
    ∷ ("endpwent", address_of "endpwent")
    ∷ ("endrpcent", address_of "endrpcent")
    ∷ ("endservent", address_of "endservent")
    ∷ ("endsgent", address_of "endsgent")
    ∷ ("endspent", address_of "endspent")
    ∷ ("endusershell", address_of "endusershell")
    ∷ ("endutent", address_of "endutent")
    ∷ ("endutxent", address_of "endutxent")
    ∷ ("environ", address_of "environ")
    ∷ ("epoll_create", address_of "epoll_create")
    ∷ ("epoll_create1", address_of "epoll_create1")
    ∷ ("epoll_ctl", address_of "epoll_ctl")
    ∷ ("epoll_pwait", address_of "epoll_pwait")
    ∷ ("epoll_wait", address_of "epoll_wait")
    ∷ ("err", address_of "err")
    ∷ ("error", address_of "error")
    ∷ ("error_at_line", address_of "error_at_line")
    ∷ ("errx", address_of "errx")
    ∷ ("ether_aton", address_of "ether_aton")
    ∷ ("ether_hostton", address_of "ether_hostton")
    ∷ ("ether_ntoa", address_of "ether_ntoa")
    ∷ ("ether_ntohost", address_of "ether_ntohost")
    ∷ ("euidaccess", address_of "euidaccess")
    ∷ []
