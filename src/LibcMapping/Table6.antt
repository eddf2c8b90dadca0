-- ===== src/LibcMapping/Table6.antt =====
-- Lines 973 to 1117 of `sloader_libc_map` in libc_mapping.cc.
use sloader.Base.{List, [], ◌∷◌}
use sloader.LibcMapping.{address_of, value_of, Entry}

unfoldable pub entries6 : List Entry
entries6 =
    ("pthread_attr_getstacksize", address_of "pthread_attr_getstacksize")
    ∷ ("pthread_attr_init", address_of "pthread_attr_init")
    ∷ ("pthread_attr_setdetachstate", address_of "pthread_attr_setdetachstate")
    ∷ ("pthread_attr_setguardsize", address_of "pthread_attr_setguardsize")
    ∷ ("pthread_attr_setinheritsched", address_of "pthread_attr_setinheritsched")
    ∷ ("pthread_attr_setscope", address_of "pthread_attr_setscope")
    ∷ ("pthread_attr_setstacksize", address_of "pthread_attr_setstacksize")
    ∷ ("pthread_barrier_destroy", address_of "pthread_barrier_destroy")
    ∷ ("pthread_barrier_init", address_of "pthread_barrier_init")
    ∷ ("pthread_barrier_wait", address_of "pthread_barrier_wait")
    ∷ ("pthread_cancel", address_of "pthread_cancel")
    ∷ ("pthread_cond_broadcast", address_of "pthread_cond_broadcast")
    ∷ ("pthread_cond_broadcast", address_of "pthread_cond_broadcast")
    ∷ ("pthread_cond_destroy", address_of "pthread_cond_destroy")
    ∷ ("pthread_cond_destroy", address_of "pthread_cond_destroy")
    ∷ ("pthread_cond_init", address_of "pthread_cond_init")
    ∷ ("pthread_cond_init", address_of "pthread_cond_init")
    ∷ ("pthread_cond_signal", address_of "pthread_cond_signal")
    ∷ ("pthread_cond_signal", address_of "pthread_cond_signal")
    ∷ ("pthread_cond_timedwait", address_of "pthread_cond_timedwait")
    ∷ ("pthread_cond_wait", address_of "pthread_cond_wait")
    ∷ ("pthread_cond_wait", address_of "pthread_cond_wait")
    ∷ ("pthread_condattr_destroy", address_of "pthread_condattr_destroy")
    ∷ ("pthread_condattr_init", address_of "pthread_condattr_init")
    ∷ ("pthread_condattr_setclock", address_of "pthread_condattr_setclock")
    ∷ ("pthread_condattr_setpshared", address_of "pthread_condattr_setpshared")
    ∷ ("pthread_create", address_of "pthread_create")
    ∷ ("pthread_detach", address_of "pthread_detach")
    ∷ ("pthread_equal", address_of "pthread_equal")
    ∷ ("pthread_exit", address_of "pthread_exit")
    ∷ ("pthread_getconcurrency", address_of "pthread_getconcurrency")
    ∷ ("pthread_getcpuclockid", address_of "pthread_getcpuclockid")
    ∷ ("pthread_getname_np", address_of "pthread_getname_np")
    ∷ ("pthread_getspecific", address_of "pthread_getspecific")
    ∷ ("pthread_getspecific", address_of "pthread_getspecific")
    ∷ ("pthread_getspecific", address_of "pthread_getspecific")
    ∷ ("pthread_join", address_of "pthread_join")
    ∷ ("pthread_join", address_of "pthread_join")
    ∷ ("pthread_join", address_of "pthread_join")
    ∷ ("pthread_join", address_of "pthread_join")
    ∷ ("pthread_key_create", address_of "pthread_key_create")
    ∷ ("pthread_key_delete", address_of "pthread_key_delete")
    ∷ ("pthread_kill", address_of "pthread_kill")
    ∷ ("pthread_mutex_consistent", address_of "pthread_mutex_consistent")
    ∷ ("pthread_mutex_consistent", address_of "pthread_mutex_consistent")
    ∷ ("pthread_mutex_consistent", address_of "pthread_mutex_consistent")
    ∷ ("pthread_mutex_consistent", address_of "pthread_mutex_consistent")
    ∷ ("pthread_mutex_destroy", address_of "pthread_mutex_destroy")
    ∷ ("pthread_mutex_init", address_of "pthread_mutex_init")
    ∷ ("pthread_mutex_lock", address_of "pthread_mutex_lock")
    ∷ ("pthread_mutex_timedlock", address_of "pthread_mutex_timedlock")
    ∷ ("pthread_mutex_trylock", address_of "pthread_mutex_trylock")
    ∷ ("pthread_mutex_unlock", address_of "pthread_mutex_unlock")
    ∷ ("pthread_mutexattr_destroy", address_of "pthread_mutexattr_destroy")
    ∷ ("pthread_mutexattr_init", address_of "pthread_mutexattr_init")
    ∷ ("pthread_mutexattr_setpshared", address_of "pthread_mutexattr_setpshared")
    ∷ ("pthread_mutexattr_setrobust", address_of "pthread_mutexattr_setrobust")
    ∷ ("pthread_mutexattr_setrobust", address_of "pthread_mutexattr_setrobust")
    ∷ ("pthread_mutexattr_setrobust", address_of "pthread_mutexattr_setrobust")
    ∷ ("pthread_mutexattr_setrobust", address_of "pthread_mutexattr_setrobust")
    ∷ ("pthread_mutexattr_settype", address_of "pthread_mutexattr_settype")
    ∷ ("pthread_once", address_of "pthread_once")
    ∷ ("pthread_rwlock_destroy", address_of "pthread_rwlock_destroy")
    ∷ ("pthread_rwlock_init", address_of "pthread_rwlock_init")
    ∷ ("pthread_rwlock_rdlock", address_of "pthread_rwlock_rdlock")
    ∷ ("pthread_rwlock_timedrdlock", address_of "pthread_rwlock_timedrdlock")
    ∷ ("pthread_rwlock_timedwrlock", address_of "pthread_rwlock_timedwrlock")
    ∷ ("pthread_rwlock_tryrdlock", address_of "pthread_rwlock_tryrdlock")
    ∷ ("pthread_rwlock_trywrlock", address_of "pthread_rwlock_trywrlock")
    ∷ ("pthread_rwlock_unlock", address_of "pthread_rwlock_unlock")
    ∷ ("pthread_rwlock_wrlock", address_of "pthread_rwlock_wrlock")
    ∷ ("pthread_rwlockattr_destroy", address_of "pthread_rwlockattr_destroy")
    ∷ ("pthread_rwlockattr_init", address_of "pthread_rwlockattr_init")
    ∷ ("pthread_rwlockattr_setkind_np", address_of "pthread_rwlockattr_setkind_np")
    ∷ ("pthread_rwlockattr_setpshared", address_of "pthread_rwlockattr_setpshared")
    ∷ ("pthread_self", address_of "pthread_self")
    ∷ ("pthread_setcancelstate", address_of "pthread_setcancelstate")
    ∷ ("pthread_setconcurrency", address_of "pthread_setconcurrency")
    ∷ ("pthread_setname_np", address_of "pthread_setname_np")
    ∷ ("pthread_setspecific", address_of "pthread_setspecific")
    ∷ ("pthread_sigmask", address_of "pthread_sigmask")
    ∷ ("pthread_tryjoin_np", address_of "pthread_tryjoin_np")
    ∷ ("ptrace", address_of "ptrace")
    ∷ ("ptsname", address_of "ptsname")
    ∷ ("ptsname_r", address_of "ptsname_r")
    ∷ ("putc", address_of "putc")
    ∷ ("putchar", address_of "putchar")
    ∷ ("putenv", address_of "putenv")
    ∷ ("putgrent", address_of "putgrent")
    ∷ ("putpwent", address_of "putpwent")
    ∷ ("puts", address_of "puts")
    ∷ ("putsgent", address_of "putsgent")
    ∷ ("putspent", address_of "putspent")
    ∷ ("pututline", address_of "pututline")
    ∷ ("pututxline", address_of "pututxline")
    ∷ ("putwc", address_of "putwc")
    ∷ ("putwchar", address_of "putwchar")
    ∷ ("pwrite", address_of "pwrite")
    ∷ ("pwrite64", address_of "pwrite64")
    ∷ ("pwritev64v2", address_of "pwritev64v2")
    ∷ ("qsort", address_of "qsort")
    ∷ ("qsort_r", address_of "qsort_r")
    ∷ ("raise", address_of "raise")
    ∷ ("rand", address_of "rand")
    ∷ ("rand_r", address_of "rand_r")
    ∷ ("random", address_of "random")
    ∷ ("rawmemchr", value_of "rawmemchr_c")
    ∷ ("re_compile_pattern", address_of "re_compile_pattern")
    ∷ ("re_match", address_of "re_match")
    ∷ ("re_search", address_of "re_search")
    ∷ ("re_set_syntax", address_of "re_set_syntax")
    ∷ ("read", address_of "read")
    ∷ ("readdir", address_of "readdir")
    ∷ ("readdir64", address_of "readdir64")
    ∷ ("readlink", address_of "readlink")
    ∷ ("readlinkat", address_of "readlinkat")
    ∷ ("readv", address_of "readv")
    ∷ ("realloc", address_of "realloc")
    ∷ ("reallocarray", address_of "reallocarray")
    ∷ ("realpath", address_of "realpath")
    ∷ ("recv", address_of "recv")
    ∷ ("recvfrom", address_of "recvfrom")
    ∷ ("recvmmsg", address_of "recvmmsg")
    ∷ ("recvmsg", address_of "recvmsg")
    ∷ ("regcomp", address_of "regcomp")
    ∷ ("regerror", address_of "regerror")
    ∷ ("regexec", address_of "regexec")
    ∷ ("regfree", address_of "regfree")
    ∷ ("remove", address_of "remove")
    ∷ ("removexattr", address_of "removexattr")
    ∷ ("rename", address_of "rename")
    ∷ ("renameat", address_of "renameat")
    ∷ ("renameat2", address_of "renameat2")
    ∷ ("res_dnok", address_of "res_dnok")
    ∷ ("res_hnok", address_of "res_hnok")
    ∷ ("res_nquery", address_of "res_nquery")
    ∷ ("res_nsearch", address_of "res_nsearch")
    ∷ ("res_query", address_of "res_query")
    ∷ ("rewind", address_of "rewind")
    ∷ ("rewinddir", address_of "rewinddir")
    ∷ ("rindex", address_of "rindex_c")
    ∷ ("rmdir", address_of "rmdir")
    ∷ ("rpmatch", address_of "rpmatch")
    ∷ ("ruserok", address_of "ruserok")
    ∷ ("sbrk", address_of "sbrk")
    ∷ []
