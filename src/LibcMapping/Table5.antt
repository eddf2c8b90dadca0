-- ===== src/LibcMapping/Table5.antt =====
-- Lines 828 to 972 of `sloader_libc_map` in libc_mapping.cc.
use sloader.Base.{List, [], ◌∷◌}
use sloader.LibcMapping.{address_of, value_of, Entry}

unfoldable pub entries5 : List Entry
entries5 =
    ("llistxattr", address_of "llistxattr")
    ∷ ("localeconv", address_of "localeconv")
    ∷ ("localtime", address_of "localtime")
    ∷ ("localtime_r", address_of "localtime_r")
    ∷ ("lockf", address_of "lockf")
    ∷ ("lockf64", address_of "lockf64")
    ∷ ("lremovexattr", address_of "lremovexattr")
    ∷ ("lsearch", address_of "lsearch")
    ∷ ("lseek", address_of "lseek")
    ∷ ("lseek", address_of "lseek")
    ∷ ("lseek64", address_of "lseek64")
    ∷ ("lsetxattr", address_of "lsetxattr")
    ∷ ("lstat", address_of "lstat")
    ∷ ("lstat64", address_of "lstat64")
    ∷ ("lutimes", address_of "lutimes")
    ∷ ("madvise", address_of "madvise")
    ∷ ("makecontext", address_of "makecontext")
    ∷ ("mallinfo", address_of "mallinfo")
    ∷ ("mallinfo2", address_of "mallinfo2")
    ∷ ("malloc", address_of "malloc")
    ∷ ("malloc_trim", address_of "malloc_trim")
    ∷ ("malloc_usable_size", address_of "malloc_usable_size")
    ∷ ("mblen", address_of "mblen")
    ∷ ("mbrtowc", address_of "mbrtowc")
    ∷ ("mbsinit", address_of "mbsinit")
    ∷ ("mbsnrtowcs", address_of "mbsnrtowcs")
    ∷ ("mbsrtowcs", address_of "mbsrtowcs")
    ∷ ("mbstowcs", address_of "mbstowcs")
    ∷ ("mbtowc", address_of "mbtowc")
    ∷ ("memccpy", address_of "memccpy")
    ∷ ("memchr", value_of "memchr_c")
    ∷ ("memcmp", address_of "memcmp")
    ∷ ("memcpy", address_of "memcpy")
    ∷ ("memfd_create", address_of "memfd_create")
    ∷ ("memmem", address_of "memmem")
    ∷ ("memmove", address_of "memmove")
    ∷ ("mempcpy", address_of "mempcpy")
    ∷ ("memrchr", address_of "memrchr_c")
    ∷ ("memset", address_of "memset")
    ∷ ("mincore", address_of "mincore")
    ∷ ("mkdir", address_of "mkdir")
    ∷ ("mkdirat", address_of "mkdirat")
    ∷ ("mkdtemp", address_of "mkdtemp")
    ∷ ("mkfifo", address_of "mkfifo")
    ∷ ("mkfifoat", address_of "mkfifoat")
    ∷ ("mknod", address_of "mknod")
    ∷ ("mknodat", address_of "mknodat")
    ∷ ("mkostemp", address_of "mkostemp")
    ∷ ("mkostemp64", address_of "mkostemp64")
    ∷ ("mkstemp", address_of "mkstemp")
    ∷ ("mkstemp64", address_of "mkstemp64")
    ∷ ("mkstemp64", address_of "mkstemp64")
    ∷ ("mkstemps", address_of "mkstemps")
    ∷ ("mktime", address_of "mktime")
    ∷ ("mlock", address_of "mlock")
    ∷ ("mmap", address_of "mmap")
    ∷ ("mmap64", address_of "mmap64")
    ∷ ("modf", address_of "modf_c")
    ∷ ("mount", address_of "mount")
    ∷ ("mprotect", address_of "mprotect")
    ∷ ("mq_getattr", address_of "mq_getattr")
    ∷ ("mremap", address_of "mremap")
    ∷ ("msgctl", address_of "msgctl")
    ∷ ("msync", address_of "msync")
    ∷ ("mtrace", address_of "mtrace")
    ∷ ("munlock", address_of "munlock")
    ∷ ("munmap", address_of "munmap")
    ∷ ("name_to_handle_at", address_of "name_to_handle_at")
    ∷ ("nanosleep", address_of "nanosleep")
    ∷ ("newlocale", address_of "newlocale")
    ∷ ("nftw64", address_of "nftw64")
    ∷ ("nice", address_of "nice")
    ∷ ("nl_langinfo", address_of "nl_langinfo")
    ∷ ("ns_name_uncompress", address_of "ns_name_uncompress")
    ∷ ("ntp_gettimex", address_of "ntp_gettimex")
    ∷ ("obstack_free", address_of "obstack_free")
    ∷ ("obstack_printf", address_of "obstack_printf")
    ∷ ("obstack_vprintf", address_of "obstack_vprintf")
    ∷ ("open", address_of "open")
    ∷ ("open64", address_of "open64")
    ∷ ("open_by_handle_at", address_of "open_by_handle_at")
    ∷ ("open_memstream", address_of "open_memstream")
    ∷ ("openat", address_of "openat")
    ∷ ("openat64", address_of "openat64")
    ∷ ("opendir", address_of "opendir")
    ∷ ("openlog", address_of "openlog")
    ∷ ("openpty", address_of "openpty")
    ∷ ("optarg", address_of "optarg")
    ∷ ("opterr", address_of "opterr")
    ∷ ("optind", address_of "optind")
    ∷ ("optopt", address_of "optopt")
    ∷ ("parse_printf_format", address_of "parse_printf_format")
    ∷ ("pathconf", address_of "pathconf")
    ∷ ("pause", address_of "pause")
    ∷ ("pclose", address_of "pclose")
    ∷ ("perror", address_of "perror")
    ∷ ("personality", address_of "personality")
    ∷ ("pipe", address_of "pipe")
    ∷ ("pipe2", address_of "pipe2")
    ∷ ("poll", address_of "poll")
    ∷ ("popen", address_of "popen")
    ∷ ("posix_fadvise", address_of "posix_fadvise")
    ∷ ("posix_fadvise64", address_of "posix_fadvise64")
    ∷ ("posix_fallocate", address_of "posix_fallocate")
    ∷ ("posix_fallocate64", address_of "posix_fallocate64")
    ∷ ("posix_madvise", address_of "posix_madvise")
    ∷ ("posix_memalign", address_of "posix_memalign")
    ∷ ("posix_openpt", address_of "posix_openpt")
    ∷ ("posix_spawn", address_of "posix_spawn")
    ∷ ("posix_spawn_file_actions_addclose", address_of "posix_spawn_file_actions_addclose")
    ∷ ("posix_spawn_file_actions_adddup2", address_of "posix_spawn_file_actions_adddup2")
    ∷ ("posix_spawn_file_actions_addopen", address_of "posix_spawn_file_actions_addopen")
    ∷ ("posix_spawn_file_actions_destroy", address_of "posix_spawn_file_actions_destroy")
    ∷ ("posix_spawn_file_actions_init", address_of "posix_spawn_file_actions_init")
    ∷ ("posix_spawnattr_destroy", address_of "posix_spawnattr_destroy")
    ∷ ("posix_spawnattr_init", address_of "posix_spawnattr_init")
    ∷ ("posix_spawnattr_setflags", address_of "posix_spawnattr_setflags")
    ∷ ("posix_spawnattr_setpgroup", address_of "posix_spawnattr_setpgroup")
    ∷ ("posix_spawnattr_setschedparam", address_of "posix_spawnattr_setschedparam")
    ∷ ("posix_spawnattr_setschedpolicy", address_of "posix_spawnattr_setschedpolicy")
    ∷ ("posix_spawnattr_setsigdefault", address_of "posix_spawnattr_setsigdefault")
    ∷ ("posix_spawnattr_setsigmask", address_of "posix_spawnattr_setsigmask")
    ∷ ("posix_spawnp", address_of "posix_spawnp")
    ∷ ("ppoll", address_of "ppoll")
    ∷ ("prctl", address_of "prctl")
    ∷ ("pread", address_of "pread")
    ∷ ("pread64", address_of "pread64")
    ∷ ("preadv64v2", address_of "preadv64v2")
    ∷ ("printf", address_of "printf")
    ∷ ("process_vm_readv", address_of "process_vm_readv")
    ∷ ("process_vm_writev", address_of "process_vm_writev")
    ∷ ("program_invocation_name", address_of "program_invocation_name")
    ∷ ("program_invocation_short_name", address_of "program_invocation_short_name")
    ∷ ("pselect", address_of "pselect")
    ∷ ("pthread_getattr_np", address_of "pthread_getattr_np")
    ∷ ("pthread_attr_getguardsize", address_of "pthread_attr_getguardsize")
    ∷ ("__fxstat64", address_of "fstat64")
    ∷ ("pthread_attr_getstack", address_of "pthread_attr_getstack")
    ∷ ("bcmp", address_of "bcmp")
    ∷ ("__lxstat64", address_of "lstat64")
    ∷ ("__xstat64", address_of "stat64")
    ∷ ("__fxstatat64", address_of "fstatat64")
    ∷ ("pthread_attr_destroy", address_of "pthread_attr_destroy")
    ∷ []
