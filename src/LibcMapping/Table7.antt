-- ===== src/LibcMapping/Table7.antt =====
-- Lines 1118 to 1262 of `sloader_libc_map` in libc_mapping.cc.
use sloader.Base.{List, [], ◌∷◌}
use sloader.LibcMapping.{address_of, value_of, Entry}

unfoldable pub entries7 : List Entry
entries7 =
    ("scandir", address_of "scandir")
    ∷ ("scandir64", address_of "scandir64")
    ∷ ("scandirat", address_of "scandirat")
    ∷ ("sched_get_priority_max", address_of "sched_get_priority_max")
    ∷ ("sched_get_priority_min", address_of "sched_get_priority_min")
    ∷ ("sched_getaffinity", address_of "sched_getaffinity")
    ∷ ("sched_getparam", address_of "sched_getparam")
    ∷ ("sched_getscheduler", address_of "sched_getscheduler")
    ∷ ("sched_rr_get_interval", address_of "sched_rr_get_interval")
    ∷ ("sched_setaffinity", address_of "sched_setaffinity")
    ∷ ("sched_setparam", address_of "sched_setparam")
    ∷ ("sched_setscheduler", address_of "sched_setscheduler")
    ∷ ("sched_yield", address_of "sched_yield")
    ∷ ("secure_getenv", address_of "secure_getenv")
    ∷ ("select", address_of "select")
    ∷ ("sem_clockwait", address_of "sem_clockwait")
    ∷ ("sem_destroy", address_of "sem_destroy")
    ∷ ("sem_init", address_of "sem_init")
    ∷ ("sem_post", address_of "sem_post")
    ∷ ("sem_trywait", address_of "sem_trywait")
    ∷ ("sem_wait", address_of "sem_wait")
    ∷ ("semctl", address_of "semctl")
    ∷ ("send", address_of "send")
    ∷ ("sendfile", address_of "sendfile")
    ∷ ("sendfile64", address_of "sendfile64")
    ∷ ("sendmmsg", address_of "sendmmsg")
    ∷ ("sendmsg", address_of "sendmsg")
    ∷ ("sendto", address_of "sendto")
    ∷ ("setaliasent", address_of "setaliasent")
    ∷ ("setbuf", address_of "setbuf")
    ∷ ("setbuf", address_of "setbuf")
    ∷ ("setbuffer", address_of "setbuffer")
    ∷ ("setcontext", address_of "setcontext")
    ∷ ("setdomainname", address_of "setdomainname")
    ∷ ("setegid", address_of "setegid")
    ∷ ("setenv", address_of "setenv")
    ∷ ("seteuid", address_of "seteuid")
    ∷ ("setfsgid", address_of "setfsgid")
    ∷ ("setfsuid", address_of "setfsuid")
    ∷ ("setgid", address_of "setgid")
    ∷ ("setgrent", address_of "setgrent")
    ∷ ("setgroups", address_of "setgroups")
    ∷ ("sethostent", address_of "sethostent")
    ∷ ("sethostname", address_of "sethostname")
    ∷ ("setitimer", address_of "setitimer")
    ∷ ("setlinebuf", address_of "setlinebuf")
    ∷ ("setlocale", address_of "setlocale")
    ∷ ("setlogmask", address_of "setlogmask")
    ∷ ("setmntent", address_of "setmntent")
    ∷ ("setnetent", address_of "setnetent")
    ∷ ("setnetgrent", address_of "setnetgrent")
    ∷ ("setns", address_of "setns")
    ∷ ("setpgid", address_of "setpgid")
    ∷ ("setpgrp", address_of "setpgrp")
    ∷ ("setpriority", address_of "setpriority")
    ∷ ("setprotoent", address_of "setprotoent")
    ∷ ("setpwent", address_of "setpwent")
    ∷ ("setregid", address_of "setregid")
    ∷ ("setresgid", address_of "setresgid")
    ∷ ("setresuid", address_of "setresuid")
    ∷ ("setreuid", address_of "setreuid")
    ∷ ("setrlimit", address_of "setrlimit")
    ∷ ("setrlimit64", address_of "setrlimit64")
    ∷ ("setrpcent", address_of "setrpcent")
    ∷ ("setservent", address_of "setservent")
    ∷ ("setsgent", address_of "setsgent")
    ∷ ("setsid", address_of "setsid")
    ∷ ("setsid", address_of "setsid")
    ∷ ("setsockopt", address_of "setsockopt")
    ∷ ("setspent", address_of "setspent")
    ∷ ("settimeofday", address_of "settimeofday")
    ∷ ("setuid", address_of "setuid")
    ∷ ("setusershell", address_of "setusershell")
    ∷ ("setutent", address_of "setutent")
    ∷ ("setutxent", address_of "setutxent")
    ∷ ("setvbuf", address_of "setvbuf")
    ∷ ("setxattr", address_of "setxattr")
    ∷ ("sgetspent", address_of "sgetspent")
    ∷ ("shmat", address_of "shmat")
    ∷ ("shmctl", address_of "shmctl")
    ∷ ("shmdt", address_of "shmdt")
    ∷ ("shmget", address_of "shmget")
    ∷ ("shutdown", address_of "shutdown")
    ∷ ("sigabbrev_np", address_of "sigabbrev_np")
    ∷ ("sigaction", address_of "sigaction")
    ∷ ("sigaddset", address_of "sigaddset")
    ∷ ("sigaltstack", address_of "sigaltstack")
    ∷ ("sigdelset", address_of "sigdelset")
    ∷ ("sigemptyset", address_of "sigemptyset")
    ∷ ("sigfillset", address_of "sigfillset")
    ∷ ("sigfillset", address_of "sigfillset")
    ∷ ("sigfillset", address_of "sigfillset")
    ∷ ("sigisemptyset", address_of "sigisemptyset")
    ∷ ("sigismember", address_of "sigismember")
    ∷ ("signal", address_of "signal")
    ∷ ("signalfd", address_of "signalfd")
    ∷ ("sigpending", address_of "sigpending")
    ∷ ("sigprocmask", address_of "sigprocmask")
    ∷ ("sigqueue", address_of "sigqueue")
    ∷ ("sigset", address_of "sigset")
    ∷ ("sigsuspend", address_of "sigsuspend")
    ∷ ("sigtimedwait", address_of "sigtimedwait")
    ∷ ("sigwait", address_of "sigwait")
    ∷ ("sigwaitinfo", address_of "sigwaitinfo")
    ∷ ("sleep", address_of "sleep")
    ∷ ("snprintf", address_of "snprintf")
    ∷ ("socket", address_of "socket")
    ∷ ("socketpair", address_of "socketpair")
    ∷ ("splice", address_of "splice")
    ∷ ("sprintf", address_of "sprintf")
    ∷ ("sprintf", address_of "sprintf")
    ∷ ("srand", address_of "srand")
    ∷ ("srandom", address_of "srandom")
    ∷ ("sscanf", address_of "sscanf")
    ∷ ("stat", address_of "stat")
    ∷ ("stat64", address_of "stat64")
    ∷ ("statfs", address_of "statfs")
    ∷ ("statfs", address_of "statfs")
    ∷ ("statfs64", address_of "statfs64")
    ∷ ("statvfs", address_of "statvfs")
    ∷ ("statvfs64", address_of "statvfs64")
    ∷ ("statx", address_of "statx")
    ∷ ("stderr", address_of "stderr")
    ∷ ("stdin", address_of "stdin")
    ∷ ("stdout", address_of "stdout")
    ∷ ("stpcpy", address_of "stpcpy")
    ∷ ("stpncpy", address_of "stpncpy")
    ∷ ("strcasecmp", address_of "strcasecmp")
    ∷ ("strcasestr", address_of "strcasestr_c")
    ∷ ("strcat", address_of "strcat")
    ∷ ("strchr", value_of "strchr_c")
    ∷ ("strchrnul", value_of "strchrnul_c")
    ∷ ("strcmp", address_of "strcmp")
    ∷ ("strcoll", address_of "strcoll")
    ∷ ("strcpy", address_of "strcpy")
    ∷ ("strcspn", address_of "strcspn")
    ∷ ("strdup", address_of "strdup")
    ∷ ("strdup", address_of "strdup")
    ∷ ("strerror", address_of "strerror")
    ∷ ("strerror_l", address_of "strerror_l")
    ∷ ("strerror_r", address_of "strerror_r")
    ∷ ("strftime", address_of "strftime")
    ∷ ("strlen", address_of "strlen")
    ∷ ("strncasecmp", address_of "strncasecmp")
    ∷ ("strncat", address_of "strncat")
    ∷ []
