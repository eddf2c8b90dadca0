-- ===== src/LibcMapping/Table3.antt =====
-- Lines 538 to 682 of `sloader_libc_map` in libc_mapping.cc.
use sloader.Base.{List, [], ◌∷◌}
use sloader.LibcMapping.{address_of, value_of, Entry}

unfoldable pub entries3 : List Entry
entries3 =
    ("eventfd", address_of "eventfd")
    ∷ ("eventfd_read", address_of "eventfd_read")
    ∷ ("eventfd_write", address_of "eventfd_write")
    ∷ ("execl", address_of "execl")
    ∷ ("execle", address_of "execle")
    ∷ ("execlp", address_of "execlp")
    ∷ ("execv", address_of "execv")
    ∷ ("execve", address_of "execve")
    ∷ ("execvp", address_of "execvp")
    ∷ ("exit", address_of "exit")
    ∷ ("faccessat", address_of "faccessat")
    ∷ ("fallocate", address_of "fallocate")
    ∷ ("fallocate64", address_of "fallocate64")
    ∷ ("fchdir", address_of "fchdir")
    ∷ ("fchmod", address_of "fchmod")
    ∷ ("fchmodat", address_of "fchmodat")
    ∷ ("fchown", address_of "fchown")
    ∷ ("fchownat", address_of "fchownat")
    ∷ ("fclose", address_of "fclose")
    ∷ ("fcntl", address_of "fcntl")
    ∷ ("fcntl64", address_of "fcntl64")
    ∷ ("fdatasync", address_of "fdatasync")
    ∷ ("fdopen", address_of "fdopen")
    ∷ ("fdopendir", address_of "fdopendir")
    ∷ ("feof", address_of "feof")
    ∷ ("ferror", address_of "ferror")
    ∷ ("fexecve", address_of "fexecve")
    ∷ ("fflush", address_of "fflush")
    ∷ ("fflush_unlocked", address_of "fflush_unlocked")
    ∷ ("fgetc", address_of "fgetc")
    ∷ ("fgets", address_of "fgets")
    ∷ ("fgets_unlocked", address_of "fgets_unlocked")
    ∷ ("fgetwc", address_of "fgetwc")
    ∷ ("fgetxattr", address_of "fgetxattr")
    ∷ ("fileno", address_of "fileno")
    ∷ ("fileno_unlocked", address_of "fileno_unlocked")
    ∷ ("flistxattr", address_of "flistxattr")
    ∷ ("flock", address_of "flock")
    ∷ ("flockfile", address_of "flockfile")
    ∷ ("fmemopen", address_of "fmemopen")
    ∷ ("fnmatch", address_of "fnmatch")
    ∷ ("fopen", address_of "fopen")
    ∷ ("fopen64", address_of "fopen64")
    ∷ ("fopencookie", address_of "fopencookie")
    ∷ ("fork", address_of "fork")
    ∷ ("forkpty", address_of "forkpty")
    ∷ ("fpathconf", address_of "fpathconf")
    ∷ ("fprintf", address_of "fprintf")
    ∷ ("fputc", address_of "fputc")
    ∷ ("fputc_unlocked", address_of "fputc_unlocked")
    ∷ ("fputs", address_of "fputs")
    ∷ ("fputs_unlocked", address_of "fputs_unlocked")
    ∷ ("fputwc", address_of "fputwc")
    ∷ ("fputws", address_of "fputws")
    ∷ ("fread", address_of "fread")
    ∷ ("fread_unlocked", address_of "fread_unlocked")
    ∷ ("free", address_of "free")
    ∷ ("freeaddrinfo", address_of "freeaddrinfo")
    ∷ ("freeaddrinfo", address_of "freeaddrinfo")
    ∷ ("freeaddrinfo", address_of "freeaddrinfo")
    ∷ ("freeaddrinfo", address_of "freeaddrinfo")
    ∷ ("freeaddrinfo", address_of "freeaddrinfo")
    ∷ ("freeifaddrs", address_of "freeifaddrs")
    ∷ ("freelocale", address_of "freelocale")
    ∷ ("fremovexattr", address_of "fremovexattr")
    ∷ ("freopen", address_of "freopen")
    ∷ ("freopen64", address_of "freopen64")
    ∷ ("frexp", value_of "frexp_c")
    ∷ ("frexpl", address_of "frexpl")
    ∷ ("fscanf", address_of "fscanf")
    ∷ ("fseek", address_of "fseek")
    ∷ ("fseeko", address_of "fseeko")
    ∷ ("fseeko64", address_of "fseeko64")
    ∷ ("fsetxattr", address_of "fsetxattr")
    ∷ ("fstat", address_of "fstat")
    ∷ ("fstat64", address_of "fstat64")
    ∷ ("fstatat", address_of "fstatat")
    ∷ ("fstatat64", address_of "fstatat64")
    ∷ ("fstatfs", address_of "fstatfs")
    ∷ ("fstatfs64", address_of "fstatfs64")
    ∷ ("fstatvfs", address_of "fstatvfs")
    ∷ ("fstatvfs64", address_of "fstatvfs64")
    ∷ ("fsync", address_of "fsync")
    ∷ ("ftell", address_of "ftell")
    ∷ ("ftello", address_of "ftello")
    ∷ ("ftello64", address_of "ftello64")
    ∷ ("ftruncate", address_of "ftruncate")
    ∷ ("ftruncate64", address_of "ftruncate64")
    ∷ ("fts_close", address_of "fts_close")
    ∷ ("fts_open", address_of "fts_open")
    ∷ ("fts_read", address_of "fts_read")
    ∷ ("fts_set", address_of "fts_set")
    ∷ ("ftw", address_of "ftw")
    ∷ ("funlockfile", address_of "funlockfile")
    ∷ ("futimens", address_of "futimens")
    ∷ ("futimesat", address_of "futimesat")
    ∷ ("fwrite", address_of "fwrite")
    ∷ ("fwrite_unlocked", address_of "fwrite_unlocked")
    ∷ ("gai_strerror", address_of "gai_strerror")
    ∷ ("get_current_dir_name", address_of "get_current_dir_name")
    ∷ ("get_nprocs", address_of "get_nprocs")
    ∷ ("getaddrinfo", address_of "getaddrinfo")
    ∷ ("getaliasbyname", address_of "getaliasbyname")
    ∷ ("getaliasent", address_of "getaliasent")
    ∷ ("getauxval", address_of "getauxval")
    ∷ ("getc", address_of "getc")
    ∷ ("getcontext", address_of "getcontext")
    ∷ ("getcwd", address_of "getcwd")
    ∷ ("getdelim", address_of "getdelim")
    ∷ ("getdomainname", address_of "getdomainname")
    ∷ ("getdtablesize", address_of "getdtablesize")
    ∷ ("getegid", address_of "getegid")
    ∷ ("getentropy", address_of "getentropy")
    ∷ ("getenv", address_of "getenv")
    ∷ ("geteuid", address_of "geteuid")
    ∷ ("getgid", address_of "getgid")
    ∷ ("getgrent", address_of "getgrent")
    ∷ ("getgrgid", address_of "getgrgid")
    ∷ ("getgrgid_r", address_of "getgrgid_r")
    ∷ ("getgrnam", address_of "getgrnam")
    ∷ ("getgrnam_r", address_of "getgrnam_r")
    ∷ ("getgrouplist", address_of "getgrouplist")
    ∷ ("getgroups", address_of "getgroups")
    ∷ ("gethostbyaddr", address_of "gethostbyaddr")
    ∷ ("gethostbyaddr_r", address_of "gethostbyaddr_r")
    ∷ ("gethostbyname", address_of "gethostbyname")
    ∷ ("gethostbyname2", address_of "gethostbyname2")
    ∷ ("gethostbyname_r", address_of "gethostbyname_r")
    ∷ ("gethostent", address_of "gethostent")
    ∷ ("gethostid", address_of "gethostid")
    ∷ ("gethostname", address_of "gethostname")
    ∷ ("getifaddrs", address_of "getifaddrs")
    ∷ ("getifaddrs", address_of "getifaddrs")
    ∷ ("getitimer", address_of "getitimer")
    ∷ ("getline", address_of "getline")
    ∷ ("getloadavg", address_of "getloadavg")
    ∷ ("getlogin", address_of "getlogin")
    ∷ ("getmntent", address_of "getmntent")
    ∷ ("getmntent_r", address_of "getmntent_r")
    ∷ ("getnameinfo", address_of "getnameinfo")
    ∷ ("getnetbyaddr", address_of "getnetbyaddr")
    ∷ ("getnetbyname", address_of "getnetbyname")
    ∷ ("getnetent", address_of "getnetent")
    ∷ ("getnetgrent", address_of "getnetgrent")
    ∷ ("getopt", address_of "getopt")
    ∷ []
