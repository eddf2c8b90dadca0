-- ===== src/LibcMapping/Table1.antt =====
-- Lines 248 to 392 of `sloader_libc_map` in libc_mapping.cc.
use sloader.Base.{List, [], ◌∷◌}
use sloader.LibcMapping.{address_of, Entry}

unfoldable pub entries1 : List Entry
entries1 =
    ("ZSTD_trace_compress_begin", address_of "sloader_ZSTD_trace_compress_begin")
    ∷ ("ZSTD_trace_compress_end", address_of "sloader_ZSTD_trace_compress_end")
    ∷ ("ZSTD_trace_decompress_begin", address_of "sloader_ZSTD_trace_decompress_begin")
    ∷ ("ZSTD_trace_decompress_end", address_of "sloader_ZSTD_trace_decompress_end")
    ∷ ("_ITM_deregisterTMCloneTable", address_of "sloader__ITM_deregisterTMCloneTable")
    ∷ ("_ITM_registerTMCloneTable", address_of "sloader__ITM_registerTMCloneTable")
    ∷ ("__asprintf_chk", address_of "sloader___asprintf_chk")
    ∷ ("__assert_fail", address_of "sloader___assert_fail")
    ∷ ("__cxa_atexit", address_of "sloader_atexit_always_success")
    ∷ ("__cxa_finalize", address_of "sloader___cxa_finalize")
    ∷ ("__cxa_thread_atexit_impl", address_of "sloader___cxa_thread_atexit_impl")
    ∷ ("__fxstat", address_of "sloader___fxstat")
    ∷ ("__gmon_start__", address_of "sloader___gmon_start__")
    ∷ ("__gmtime_r", address_of "sloader___gmtime_r")
    ∷ ("__libc_dn_expand", address_of "sloader___libc_dn_expand")
    ∷ ("__libc_dynarray_resize", address_of "sloader___libc_dynarray_resize")
    ∷ ("__libc_ns_makecanon", address_of "sloader___libc_ns_makecanon")
    ∷ ("__libc_ns_samename", address_of "sloader___libc_ns_samename")
    ∷ ("__libc_res_nameinquery", address_of "sloader___libc_res_nameinquery")
    ∷ ("__libc_res_queriesmatch", address_of "sloader___libc_res_queriesmatch")
    ∷ ("__nss_configure_lookup", address_of "sloader___nss_configure_lookup")
    ∷ ("__progname", address_of "sloader___progname")
    ∷ ("__progname_full", address_of "sloader___progname_full")
    ∷ ("__res_context_hostalias", address_of "sloader___res_context_hostalias")
    ∷ ("__res_context_query", address_of "sloader___res_context_query")
    ∷ ("__res_context_search", address_of "sloader___res_context_search")
    ∷ ("__res_get_nsaddr", address_of "sloader___res_get_nsaddr")
    ∷ ("__res_iclose", address_of "sloader___res_iclose")
    ∷ ("__resolv_context_get", address_of "sloader___resolv_context_get")
    ∷ ("__resolv_context_get_override", address_of "sloader___resolv_context_get_override")
    ∷ ("__resolv_context_put", address_of "sloader___resolv_context_put")
    ∷ ("__stack_chk_fail", address_of "sloader___stack_chk_fail")
    ∷ ("__strtod_nan", address_of "sloader___strtod_nan")
    ∷ ("__strtof128_nan", address_of "sloader___strtof128_nan")
    ∷ ("__strtof_nan", address_of "sloader___strtof_nan")
    ∷ ("__strtold_nan", address_of "sloader___strtold_nan")
    ∷ ("__xpg_strerror_r", address_of "sloader___xpg_strerror_r")
    ∷ ("__xstat", address_of "sloader___xstat")
    ∷ ("_libc_intl_domainname", address_of "sloader__libc_intl_domainname")
    ∷ ("_nl_msg_cat_cntr", address_of "sloader__nl_msg_cat_cntr")
    ∷ ("_rtld_global_ro", address_of "sloader__rtld_global_ro")
    ∷ ("atexit", address_of "sloader_atexit")
    ∷ ("delete_module", address_of "sloader_delete_module")
    ∷ ("init_module", address_of "sloader_init_module")
    ∷ ("__libc_start_main", address_of "sloader_libc_start_main")
    ∷ ("__register_atfork", address_of "sloader_register_atfork")
    ∷ ("__tls_get_addr", address_of "sloader_tls_get_addr")
    ∷ ("__ctype_b_loc", address_of "__ctype_b_loc")
    ∷ ("__ctype_get_mb_cur_max", address_of "__ctype_get_mb_cur_max")
    ∷ ("__ctype_tolower_loc", address_of "__ctype_tolower_loc")
    ∷ ("__ctype_toupper_loc", address_of "__ctype_toupper_loc")
    ∷ ("__dcgettext", address_of "__dcgettext")
    ∷ ("__dprintf_chk", address_of "__dprintf_chk")
    ∷ ("__duplocale", address_of "duplocale")
    ∷ ("__environ", address_of "__environ")
    ∷ ("__errno_location", address_of "__errno_location")
    ∷ ("__explicit_bzero_chk", address_of "__explicit_bzero_chk")
    ∷ ("__fdelt_chk", address_of "__fdelt_chk")
    ∷ ("__fgets_chk", address_of "__fgets_chk")
    ∷ ("__fgets_unlocked_chk", address_of "__fgets_unlocked_chk")
    ∷ ("__fgetws_chk", address_of "__fgetws_chk")
    ∷ ("__fpending", address_of "__fpending")
    ∷ ("__fprintf_chk", address_of "__fprintf_chk")
    ∷ ("__fpurge", address_of "__fpurge")
    ∷ ("__fread_chk", address_of "__fread_chk")
    ∷ ("__fread_unlocked_chk", address_of "__fread_unlocked_chk")
    ∷ ("__freading", address_of "__freading")
    ∷ ("__freelocale", address_of "freelocale")
    ∷ ("__fsetlocking", address_of "__fsetlocking")
    ∷ ("__fwriting", address_of "__fwriting")
    ∷ ("__getdelim", address_of "__getdelim")
    ∷ ("__getgroups_chk", address_of "__getgroups_chk")
    ∷ ("__gethostname_chk", address_of "__gethostname_chk")
    ∷ ("__getpagesize", address_of "__getpagesize")
    ∷ ("__h_errno_location", address_of "__h_errno_location")
    ∷ ("__isoc99_fscanf", address_of "fscanf")
    ∷ ("__isoc99_scanf", address_of "scanf")
    ∷ ("__isoc99_sscanf", address_of "sscanf")
    ∷ ("__isoc99_vfscanf", address_of "vfscanf")
    ∷ ("__isoc99_vsscanf", address_of "vsscanf")
    ∷ ("__iswctype_l", address_of "iswctype_l")
    ∷ ("__libc_current_sigrtmax", address_of "__libc_current_sigrtmax")
    ∷ ("__libc_current_sigrtmin", address_of "__libc_current_sigrtmin")
    ∷ ("__libc_current_sigrtmin", address_of "__libc_current_sigrtmin")
    ∷ ("__libc_single_threaded", address_of "__libc_single_threaded")
    ∷ ("__longjmp_chk", address_of "longjmp")
    ∷ ("__mbrlen", address_of "__mbrlen")
    ∷ ("__mbsnrtowcs_chk", address_of "__mbsnrtowcs_chk")
    ∷ ("__mbsrtowcs_chk", address_of "__mbsrtowcs_chk")
    ∷ ("__mbstowcs_chk", address_of "__mbstowcs_chk")
    ∷ ("__memcpy_chk", address_of "memcpy")
    ∷ ("__memmove_chk", address_of "memmove")
    ∷ ("__mempcpy", address_of "__mempcpy")
    ∷ ("__mempcpy_chk", address_of "mempcpy")
    ∷ ("__memset_chk", address_of "memset")
    ∷ ("__newlocale", address_of "newlocale")
    ∷ ("__nl_langinfo_l", address_of "nl_langinfo_l")
    ∷ ("__open64_2", address_of "__open64_2")
    ∷ ("__open_2", address_of "__open_2")
    ∷ ("__openat64_2", address_of "__openat64_2")
    ∷ ("__openat_2", address_of "__openat_2")
    ∷ ("__overflow", address_of "__overflow")
    ∷ ("__poll_chk", address_of "__poll_chk")
    ∷ ("__ppoll_chk", address_of "__ppoll_chk")
    ∷ ("__pread64_chk", address_of "__pread64_chk")
    ∷ ("__pread_chk", address_of "__pread_chk")
    ∷ ("__printf_chk", address_of "__printf_chk")
    ∷ ("__rawmemchr", address_of "rawmemchr_c")
    ∷ ("__read_chk", address_of "__read_chk")
    ∷ ("__realpath_chk", address_of "__realpath_chk")
    ∷ ("__res_init", address_of "__res_init")
    ∷ ("__res_nclose", address_of "__res_nclose")
    ∷ ("__res_ninit", address_of "__res_ninit")
    ∷ ("__resp", address_of "__resp")
    ∷ ("__sched_cpualloc", address_of "__sched_cpualloc")
    ∷ ("__sched_cpucount", address_of "__sched_cpucount")
    ∷ ("__sched_cpufree", address_of "__sched_cpufree")
    ∷ ("__sigsetjmp", address_of "__sigsetjmp")
    ∷ ("__snprintf_chk", address_of "__snprintf_chk")
    ∷ ("__sprintf_chk", address_of "__sprintf_chk")
    ∷ ("__stpcpy", address_of "__stpcpy")
    ∷ ("__stpcpy_chk", address_of "stpcpy")
    ∷ ("__strcat_chk", address_of "strcat")
    ∷ ("__strcoll_l", address_of "strcoll_l")
    ∷ ("__strcpy_chk", address_of "strcpy")
    ∷ ("__strftime_l", address_of "strftime_l")
    ∷ ("__strncat_chk", address_of "strncat")
    ∷ ("__strncpy_chk", address_of "strncpy")
    ∷ ("__strtod_l", address_of "strtod_l")
    ∷ ("__strtof_l", address_of "strtof_l")
    ∷ ("__strxfrm_l", address_of "strxfrm_l")
    ∷ ("__sysconf", address_of "__sysconf")
    ∷ ("__syslog_chk", address_of "__syslog_chk")
    ∷ ("__sysv_signal", address_of "__sysv_signal")
    ∷ ("__timezone", address_of "__timezone")
    ∷ ("__towlower_l", address_of "towlower_l")
    ∷ ("__towupper_l", address_of "towupper_l")
    ∷ ("__uflow", address_of "__uflow")
    ∷ ("__uselocale", address_of "__gnu_cxx::__uselocale")
    ∷ []
