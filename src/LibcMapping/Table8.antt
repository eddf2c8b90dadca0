-- ===== src/LibcMapping/Table8.antt =====
-- Lines 1263 to 1406 of `sloader_libc_map` in libc_mapping.cc.
use sloader.Base.{List, [], ◌∷◌}
use sloader.LibcMapping.{address_of, value_of, Entry}

unfoldable pub entries8 : List Entry
entries8 =
    ("strncmp", address_of "strncmp")
    ∷ ("strncpy", address_of "strncpy")
    ∷ ("strndup", address_of "strndup")
    ∷ ("strnlen", address_of "strnlen")
    ∷ ("strpbrk", value_of "strpbrk_c")
    ∷ ("strptime", address_of "strptime")
    ∷ ("strrchr", value_of "strrchr_c")
    ∷ ("strsep", address_of "strsep")
    ∷ ("strsignal", address_of "strsignal")
    ∷ ("strspn", address_of "strspn")
    ∷ ("strstr", value_of "strstr_c")
    ∷ ("strtod", address_of "strtod")
    ∷ ("strtod_l", address_of "strtod_l")
    ∷ ("strtof", address_of "strtof")
    ∷ ("strtoimax", address_of "strtoimax")
    ∷ ("strtok", address_of "strtok")
    ∷ ("strtok_r", address_of "strtok_r")
    ∷ ("strtok_r", address_of "strtok_r")
    ∷ ("strtol", address_of "strtol")
    ∷ ("strtold", address_of "strtold")
    ∷ ("strtold_l", address_of "strtold_l")
    ∷ ("strtoll", address_of "strtoll")
    ∷ ("strtoll_l", address_of "strtoll_l")
    ∷ ("strtoul", address_of "strtoul")
    ∷ ("strtoull", address_of "strtoull")
    ∷ ("strtoull_l", address_of "strtoull_l")
    ∷ ("strtoumax", address_of "strtoumax")
    ∷ ("strverscmp", address_of "strverscmp")
    ∷ ("strxfrm", address_of "strxfrm")
    ∷ ("swapcontext", address_of "swapcontext")
    ∷ ("symlink", address_of "symlink")
    ∷ ("symlinkat", address_of "symlinkat")
    ∷ ("sync", address_of "sync")
    ∷ ("sync_file_range", address_of "sync_file_range")
    ∷ ("syncfs", address_of "syncfs")
    ∷ ("syscall", address_of "syscall")
    ∷ ("sysconf", address_of "sysconf")
    ∷ ("sysinfo", address_of "sysinfo")
    ∷ ("system", address_of "system")
    ∷ ("tcdrain", address_of "tcdrain")
    ∷ ("tcflow", address_of "tcflow")
    ∷ ("tcflush", address_of "tcflush")
    ∷ ("tcflush", address_of "tcflush")
    ∷ ("tcgetattr", address_of "tcgetattr")
    ∷ ("tcgetpgrp", address_of "tcgetpgrp")
    ∷ ("tcsetattr", address_of "tcsetattr")
    ∷ ("tcsetpgrp", address_of "tcsetpgrp")
    ∷ ("tdelete", address_of "tdelete")
    ∷ ("tdestroy", address_of "tdestroy")
    ∷ ("tempnam", address_of "tempnam")
    ∷ ("textdomain", address_of "textdomain")
    ∷ ("tfind", address_of "tfind")
    ∷ ("time", address_of "time")
    ∷ ("timegm", address_of "timegm")
    ∷ ("timer_create", address_of "timer_create")
    ∷ ("timer_delete", address_of "timer_delete")
    ∷ ("timer_gettime", address_of "timer_gettime")
    ∷ ("timer_settime", address_of "timer_settime")
    ∷ ("timerfd_create", address_of "timerfd_create")
    ∷ ("timerfd_settime", address_of "timerfd_settime")
    ∷ ("times", address_of "times")
    ∷ ("tmpfile", address_of "tmpfile")
    ∷ ("tmpfile64", address_of "tmpfile64")
    ∷ ("tolower", address_of "tolower")
    ∷ ("toupper", address_of "toupper")
    ∷ ("towlower", address_of "towlower")
    ∷ ("towupper", address_of "towupper")
    ∷ ("truncate", address_of "truncate")
    ∷ ("truncate64", address_of "truncate64")
    ∷ ("tsearch", address_of "tsearch")
    ∷ ("ttyname", address_of "ttyname")
    ∷ ("ttyname_r", address_of "ttyname_r")
    ∷ ("twalk", address_of "twalk")
    ∷ ("tzname", address_of "tzname")
    ∷ ("tzset", address_of "tzset")
    ∷ ("ulckpwdf", address_of "ulckpwdf")
    ∷ ("umask", address_of "umask")
    ∷ ("umount", address_of "umount")
    ∷ ("umount2", address_of "umount2")
    ∷ ("uname", address_of "uname")
    ∷ ("uname", address_of "uname")
    ∷ ("ungetc", address_of "ungetc")
    ∷ ("ungetwc", address_of "ungetwc")
    ∷ ("unlink", address_of "unlink")
    ∷ ("unlinkat", address_of "unlinkat")
    ∷ ("unlockpt", address_of "unlockpt")
    ∷ ("unsetenv", address_of "unsetenv")
    ∷ ("unshare", address_of "unshare")
    ∷ ("updwtmpx", address_of "updwtmpx")
    ∷ ("uselocale", address_of "uselocale")
    ∷ ("usleep", address_of "usleep")
    ∷ ("utime", address_of "utime")
    ∷ ("utimensat", address_of "utimensat")
    ∷ ("utimes", address_of "utimes")
    ∷ ("utmpxname", address_of "utmpxname")
    ∷ ("vasprintf", address_of "vasprintf")
    ∷ ("versionsort", address_of "versionsort")
    ∷ ("vfork", address_of "vfork")
    ∷ ("vfprintf", address_of "vfprintf")
    ∷ ("vmsplice", address_of "vmsplice")
    ∷ ("vsnprintf", address_of "vsnprintf")
    ∷ ("wait", address_of "wait")
    ∷ ("wait3", address_of "wait3")
    ∷ ("wait4", address_of "wait4")
    ∷ ("waitid", address_of "waitid")
    ∷ ("waitpid", address_of "waitpid")
    ∷ ("warn", address_of "warn")
    ∷ ("warnx", address_of "warnx")
    ∷ ("wcrtomb", address_of "wcrtomb")
    ∷ ("wcscat", address_of "wcscat")
    ∷ ("wcschr", address_of "wcschr_c")
    ∷ ("wcscmp", address_of "wcscmp")
    ∷ ("wcscoll", address_of "wcscoll")
    ∷ ("wcscpy", address_of "wcscpy")
    ∷ ("wcscspn", address_of "wcscspn")
    ∷ ("wcsdup", address_of "wcsdup")
    ∷ ("wcsftime", address_of "wcsftime")
    ∷ ("wcslen", address_of "wcslen")
    ∷ ("wcsncat", address_of "wcsncat")
    ∷ ("wcsncmp", address_of "wcsncmp")
    ∷ ("wcsncpy", address_of "wcsncpy")
    ∷ ("wcsnlen", address_of "wcsnlen")
    ∷ ("wcsnrtombs", address_of "wcsnrtombs")
    ∷ ("wcspbrk", address_of "wcspbrk_c")
    ∷ ("wcsrchr", address_of "wcsrchr_c")
    ∷ ("wcsrtombs", address_of "wcsrtombs")
    ∷ ("wcsstr", address_of "wcsstr_c")
    ∷ ("wcstok", address_of "wcstok")
    ∷ ("wcstol", address_of "wcstol")
    ∷ ("wcstombs", address_of "wcstombs")
    ∷ ("wcswidth", address_of "wcswidth")
    ∷ ("wcsxfrm", address_of "wcsxfrm")
    ∷ ("wctob", address_of "wctob")
    ∷ ("wctomb", address_of "wctomb")
    ∷ ("wctype", address_of "wctype")
    ∷ ("wcwidth", address_of "wcwidth")
    ∷ ("wmemchr", address_of "wmemchr_c")
    ∷ ("wmemcmp", address_of "wmemcmp")
    ∷ ("wmemcpy", address_of "wmemcpy")
    ∷ ("wmemmove", address_of "wmemmove")
    ∷ ("wmemset", address_of "wmemset")
    ∷ ("write", address_of "write")
    ∷ ("writev", address_of "writev")
    ∷ []
